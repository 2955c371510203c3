-- ===== src/Contacts/Selection.antt =====
-- frontend/src/features/contacts/ContactsModal.tsx: the selection, and its deletion with requests that
-- fail.
use nothingapp.Common.{
  ℕ, ◌==◌, ◌≡◌, refl, ap, Bool, true, false, not, ◌&&◌, ◌||◌, some, List, [], ◌∷◌, ◌++◌, map, keep,
  is_empty, arith, Bool-cases, inl, inr, if◌then◌else◌,
}
use nothingapp.Contacts.Press.{
  Press, start, cancel, elapse, context_menu, click, context_menu_twice,
}
use nothingapp.Contacts.Modal.{
  User, Modal, has, toggle_select, begin_delete, succeeded, finish_delete,
}

has-succeeded :
    (accepts : ℕ → Bool) (i : ℕ) (is : List ℕ)
    → has i (succeeded is (map accepts is)) ≡ has i is && accepts i
unfolding succeeded
has-succeeded accepts i [] = refl
has-succeeded accepts i (j ∷ is) = elim (Bool-cases (accepts j)) [
  | inl taken ↦ rw taken (ground (arith, has-succeeded accepts i is, taken))
  | inr refused ↦ rw refused (ground (arith, has-succeeded accepts i is, refused))
]

module _ {ℓ} {A : Type ℓ} where
  keep_agree : (p q : A → Bool) → ((x : A) → p x ≡ q x) → (xs : List A) → keep p xs ≡ keep q xs
  keep_agree p q h [] = refl
  keep_agree p q h (x ∷ xs) = rw (h x) (rw (keep_agree p q h xs) refl)

-- Deleting what is selected asks for exactly the selected users, and when the requests have settled
-- (`accepts` is which of them succeeded) a contact is gone if it was selected and its request
-- succeeded, and stays, in its place, otherwise: also the contacts that came meanwhile. The selection
-- is over, and the dialog closed, also when all requests failed.
pub finish_delete-begin_delete :
    (s later : Modal) (accepts : ℕ → Bool)
    → is_empty s.selected_ids ≡ false
    → let t = finish_delete s.selected_ids (map accepts s.selected_ids) later in
      (begin_delete true s ≡ (some s.selected_ids, record s { bulk_removing = true }))
      × (t.contacts
          ≡ keep (λ (c : User). not (has c.id s.selected_ids && accepts c.id)) later.contacts)
      × (t.selected_ids ≡ [])
      × (t.bulk_confirm_open ≡ false)
      × (t.bulk_removing ≡ false)
unfolding begin_delete finish_delete
finish_delete-begin_delete s later accepts some_selected = (
  rw some_selected refl,
  keep_agree _ _ (λ c. ap not (has-succeeded accepts c.id s.selected_ids)) later.contacts,
  refl,
  refl,
  refl,
)

has-append : (i j : ℕ) (is : List ℕ) → has i (is ++ j ∷ []) ≡ has i is || (j == i)
has-append i j [] = ground arith
has-append i j (k ∷ is) = ground (arith, has-append i j is)

has-keep_others :
    (i j : ℕ) (is : List ℕ) → has i (keep (λ k. not (k == j)) is) ≡ has i is && not (j == i)
has-keep_others i j [] = refl
has-keep_others i j (k ∷ is) = ground (arith, has-keep_others i j is)

-- Toggling flips whether that user is selected, and leaves every other as it was.
pub has-toggle_select :
    (i j : ℕ) (s : Modal)
    → has i (toggle_select j s).selected_ids
      ≡ (if j == i then not (has i s.selected_ids) else has i s.selected_ids)
unfolding toggle_select
has-toggle_select i j s =
    ground (arith, has-append i j s.selected_ids, has-keep_others i j s.selected_ids)

-- A row that is held until its timeout and then gets a context menu is selected and deselected
-- again: after the press the same users are selected as before it, so that holding a row when none
-- is selected does not start a selection.
pub context_menu-toggle_select :
    (i j : ℕ) (on_click : Modal → Modal) (row : Press Modal)
    → let t = click (toggle_select j) on_click (
        cancel (toggle_select j) on_click (
          context_menu
            (toggle_select j)
            on_click
            (elapse (toggle_select j) on_click (start (toggle_select j) on_click row)))) in
      has i t.row.selected_ids ≡ has i row.row.selected_ids
context_menu-toggle_select i j on_click row =
    rw (context_menu_twice (toggle_select j) on_click row) (
      let first = has-toggle_select i j row.row in
      let second = has-toggle_select i j (toggle_select j row.row) in ground (arith, first, second))
