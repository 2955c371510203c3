-- ===== src/Contacts/Tests.antt =====
-- The theorems on the contacts at concrete values.
use nothingapp.Common.{◌==◌, ◌≡◌, refl, true, false, none, some, [], ◌∷◌, codes}
use nothingapp.Contacts.Modal.{User, Modal, toggle_select, row_click, begin_delete, finish_delete}
use nothingapp.Contacts.Selection.{finish_delete-begin_delete}

abbrev anna : User
anna = record { id = 1; username = codes "anna"; name = codes "Anna" }

abbrev boris : User
boris = record { id = 2; username = codes "boris"; name = codes "Boris" }

abbrev two_contacts : Modal
two_contacts = record {
  is_open = true;
  contacts = anna ∷ boris ∷ [];
  search = [];
  query = none;
  search_results = [];
  searching = false;
  starting_id = none;
  adding_id = none;
  selected_ids = [];
  bulk_confirm_open = false;
  bulk_removing = false;
}

abbrev both_selected : Modal
both_selected = record two_contacts { selected_ids = 2 ∷ 1 ∷ []; bulk_confirm_open = true }

-- A first row is held; a click on the second one then selects that too.
selects_two : (row_click true boris (toggle_select 1 two_contacts)).selected_ids ≡ 1 ∷ 2 ∷ []
unfolding row_click toggle_select
selects_two = refl

-- The request for the second of the two fails, and that contact stays.
finish_delete-begin_delete_example :
    let t = finish_delete (2 ∷ 1 ∷ []) (false ∷ true ∷ []) both_selected in
    (begin_delete true both_selected
      ≡ (some (2 ∷ 1 ∷ []), record both_selected { bulk_removing = true }))
    × (t.contacts ≡ boris ∷ [])
    × (t.selected_ids ≡ [])
    × (t.bulk_confirm_open ≡ false)
    × (t.bulk_removing ≡ false)
finish_delete-begin_delete_example =
    finish_delete-begin_delete both_selected both_selected (λ i. i == 1) refl
