-- ===== src/Contacts/Modal.antt =====
-- frontend/src/features/contacts/ContactsModal.tsx: the contacts, the selection among them, the search
-- and the deletion of what is selected. `Set<number>` is the list of its elements as inserted.
use nothingapp.Common.{
  ℕ, ◌==◌, Bool, true, false, not, ◌&&◌, ◌||◌, Option, none, some, List, [], ◌∷◌, ◌++◌, any_of,
  keep, length, ltb, trim, Str, is_empty, is_some, if◌then◌else◌,
}
use nothingapp.Crypto.Platform.{Result, ok, err}

pub record User : Type 0 where
  pub id : ℕ
  pub username : Str
  pub name : Str

-- `query` is the search whose timeout is pending.
pub record Modal : Type 0 where
  pub is_open : Bool
  pub contacts : List User
  pub search : Str
  pub query : Option Str
  pub search_results : List User
  pub searching : Bool
  pub starting_id : Option ℕ
  pub adding_id : Option ℕ
  pub selected_ids : List ℕ
  pub bulk_confirm_open : Bool
  pub bulk_removing : Bool

abbrev pub has : ℕ → List ℕ → Bool
has i s = any_of (λ j. j == i) s

abbrev pub has_contact : ℕ → List User → Bool
has_contact i cs = any_of (λ (c : User). c.id == i) cs

abbrev pub selection_mode : Modal → Bool
selection_mode s = not (is_empty s.selected_ids)

-- The handler of the back button; closing is the parent's.
unfoldable pub go_back : Modal → Modal
go_back s =
    if selection_mode s then record s { selected_ids = [] } else record s { is_open = false }

-- The effect of `isOpen`, when it is false.
unfoldable pub closed_effect : Modal → Modal
closed_effect s = record s {
  search = [];
  search_results = [];
  searching = false;
  selected_ids = [];
  bulk_confirm_open = false;
}

-- `search.replace(/^@/, '').trim()`
unfoldable pub search_query : Str → Str
search_query [] = trim []
search_query (c ∷ cs) = if c == 64 then trim cs else trim (c ∷ cs)

-- Typing, with the effect of `search`: it restarts the timeout, or clears the results.
unfoldable pub set_search : Str → Modal → Modal
set_search text s =
    let q = search_query text in
    if ltb (length q) 2
    then record s { search = text; query = none; search_results = [] }
    else record s { search = text; query = some q }

-- The timeout: the search starts.
unfoldable pub start_search : Modal → Modal
start_search s = if is_some s.query then record s { query = none; searching = true } else s

unfoldable pub search_done : Result (List User) → Modal → Modal
search_done (ok users) s = record s { search_results = users; searching = false }
search_done (err e) s = record s { searching = false }

-- `handleStartChat`, before and after its request, which succeeds or not.
unfoldable pub begin_chat : User → Modal → Modal
begin_chat u s = record s { starting_id = some u.id }

unfoldable pub chat_started : Bool → Modal → Modal
chat_started true s = record s { is_open = false; starting_id = none }
chat_started false s = record s { starting_id = none }

-- `handleAddContact`, before and after its request, which succeeds or not.
unfoldable pub begin_add : User → Modal → Modal
begin_add u s = record s { adding_id = some u.id }

unfoldable pub added : User → Bool → Modal → Modal
added u true s = record s { contacts = s.contacts ++ u ∷ []; adding_id = none }
added u false s = record s { adding_id = none }

unfoldable pub toggle_select : ℕ → Modal → Modal
toggle_select i s = record s {
  selected_ids =
      if has i s.selected_ids
      then keep (λ j. not (j == i)) s.selected_ids
      else s.selected_ids ++ i ∷ [];
}

abbrev pub is_loading : ℕ → Option ℕ → Bool
is_loading i none = false
is_loading i (some j) = j == i

-- A click on a row: selecting while a selection is under way, a chat otherwise.
unfoldable pub row_click : Bool → User → Modal → Modal
unfolding toggle_select begin_chat
row_click can_select u s =
    if selection_mode s
    then (if can_select then toggle_select u.id s else s)
    else if is_loading u.id s.starting_id
    then s
    else begin_chat u s

-- `handleBulkDelete` up to its requests: the ids that it asks to remove.
unfoldable pub begin_delete : Bool → Modal → Option (List ℕ) × Modal
begin_delete can_remove s =
    if not can_remove || is_empty s.selected_ids
    then (none, s)
    else (some s.selected_ids, record s { bulk_removing = true })

-- The set `succeeded`, from the settled requests in the order of the ids: true is fulfilled.
unfoldable pub succeeded : List ℕ → List Bool → List ℕ
succeeded [] rs = []
succeeded (i ∷ is) [] = []
succeeded (i ∷ is) (true ∷ rs) = i ∷ succeeded is rs
succeeded (i ∷ is) (false ∷ rs) = succeeded is rs

unfoldable pub finish_delete : List ℕ → List Bool → Modal → Modal
unfolding succeeded
finish_delete is rs s =
    let gone = succeeded is rs in
    record s {
      contacts = keep (λ (c : User). not (has c.id gone)) s.contacts;
      selected_ids = [];
      bulk_confirm_open = false;
      bulk_removing = false;
    }

-- `globalResults`, and whether they are shown.
unfoldable pub global_results : Modal → List User
global_results s = keep (λ (u : User). not (has_contact u.id s.contacts)) s.search_results

unfoldable pub show_global_results : Modal → Bool
unfolding global_results search_query
show_global_results s =
    not (selection_mode s)
    && not (ltb (length (search_query s.search)) 2)
    && not (is_empty (global_results s))
