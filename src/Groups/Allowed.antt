-- ===== src/Groups/Allowed.antt =====
-- frontend/src/features/chats/GroupInfoPanel.tsx: what the panel asks the server for is allowed, and
-- the order of its list.
use nothingapp.Common.{
  ℕ, ◌==◌, ◌≡◌, refl, Bool, true, false, not, ◌||◌, ◌&&◌, Option, none, some, List, [], ◌∷◌, All,
  Str, trim, is_empty, str_eq, if◌then◌else◌,
}
use nothingapp.Groups.Panel.{
  Role, creator, admin, member, GroupMember, Request, update_name, remove_member, change_role,
  leave_group, delete_group, upload_avatar, delete_avatar, Panel, name_changed, type_name,
  cancel_name, edit_name, upload, remove_avatar, open_add, close_add, same_role, role_in,
  is_creator, is_admin, closed_effect, save_name, name_saved, open_menu, open_menu_for, toggle_role,
  toggle_admin, remove_found, remove_from_group, leave, delete_all,
}

-- What the user does with the panel.
pub data Action : Type 0 where
  close press_name press_add end_add : Action
  renamed typed cancelled save : Str → Action
  saved chosen press_avatar : Bool → Action
  menu : ℕ → Action
  press_toggle press_remove press_leave press_delete : Action

abbrev pub mounted : Str → Panel
mounted group_name = record {
  editing_name = false;
  name_value = group_name;
  show_add_modal = false;
  context_menu = none;
  requests = [];
}

if_both :
    (b : Bool) (P : Panel → Type 0) (x y : Panel)
    → ((b ≡ true) → P x)
    → ((b ≡ false) → P y)
    → P (if b then x else y)
if_both true P x y f g = f refl
if_both false P x y f g = g refl

or_false : {a b : Bool} → a || b ≡ false → (a ≡ false) × (b ≡ false)
or_false {a = false} h = (refl, h)
or_false {a = true} h = cc

not-true : {b : Bool} → not b ≡ true → b ≡ false
not-true {b = false} h = refl
not-true {b = true} h = cc

not-false : {b : Bool} → not b ≡ false → b ≡ true
not-false {b = true} h = refl
not-false {b = false} h = cc

first-true : (a b : Bool) → a && b ≡ true → a ≡ true
first-true true b h = refl
first-true false b h = cc

not-creator : (b : Bool) → same_role (if b then member else admin) creator ≡ false
not-creator true = refl
not-creator false = refl

module _ (members : List GroupMember) (me : ℕ) where
  -- A user that the panel may act on: another member, not the creator.
  abbrev pub IsTarget : ℕ → Type 0
  IsTarget i =
      (r : Role) × (role_in i members ≡ some r)
      × ((i == me) ≡ false)
      × (same_role r creator ≡ false)

  abbrev pub IsAllowed : Request → Type 0
  IsAllowed (update_name name) = is_admin members me ≡ true
  IsAllowed upload_avatar = is_admin members me ≡ true
  IsAllowed delete_avatar = is_admin members me ≡ true
  IsAllowed (remove_member i) = (is_admin members me ≡ true) × IsTarget i
  IsAllowed (change_role i r) =
      (is_creator members me ≡ true) × IsTarget i × (same_role r creator ≡ false)
  IsAllowed leave_group = is_creator members me ≡ false
  IsAllowed delete_group = is_creator members me ≡ true

  abbrev MenuIsValid : Option ℕ → Type 0
  MenuIsValid none = Unit
  MenuIsValid (some i) = IsTarget i

  abbrev pub IsValid : Panel → Type 0
  IsValid s =
      MenuIsValid s.context_menu
      × All IsAllowed s.requests
      × (s.editing_name ≡ true → is_admin members me ≡ true)
      × (s.show_add_modal ≡ true → is_admin members me ≡ true)

  unfoldable pub act : Action → Panel → Panel
  unfolding closed_effect save_name name_saved open_menu toggle_admin remove_from_group leave
      delete_all name_changed type_name cancel_name edit_name upload remove_avatar open_add
      close_add
  act close s = closed_effect s
  act press_name s = edit_name members me s
  act press_add s = open_add members me s
  act end_add s = close_add members me s
  act (renamed name) s = name_changed name s
  act (typed text) s = type_name text s
  act (cancelled name) s = cancel_name name s
  act (chosen has_file) s = upload members me has_file s
  act (press_avatar has_avatar) s = remove_avatar members me has_avatar s
  act (save name) s = save_name name s
  act (saved b) s = name_saved b s
  act (menu i) s = open_menu members me i s
  act press_toggle s = toggle_admin members me s.context_menu s
  act press_remove s = remove_from_group members me s.context_menu s
  act press_leave s = leave members me s
  act press_delete s = delete_all members me s

  unfoldable pub run : List Action → Panel → Panel
  unfolding act
  run [] s = s
  run (a ∷ later) s = run later (act a s)

  open_menu_for-IsValid :
      (i : ℕ) (r : Option Role) (s : Panel)
      → role_in i members ≡ r
      → IsValid s
      → IsValid (open_menu_for members me i r s)
  unfolding open_menu_for
  open_menu_for-IsValid i none s found v = v
  open_menu_for-IsValid i (some role) s found v =
      let b = (i == me) || same_role role creator in
      let opened = record s { context_menu = some i } in
      if_both b IsValid s (if is_admin members me then opened else s) (λ e. v)
        (λ other.
          if_both (is_admin members me) IsValid opened s
            (λ e.
              let (not_me, no_creator) =
                or_false {a = i == me} {b = same_role role creator} other in
              ((role, found, not_me, no_creator), v.1, v.2, v.3))
            (λ e. v))

  toggle_admin-IsValid :
      (m : Option ℕ) (s : Panel) → MenuIsValid m → IsValid s → IsValid (toggle_admin members me m s)
  unfolding toggle_admin toggle_role
  toggle_admin-IsValid none s t v = v
  toggle_admin-IsValid (some i) s t v = by_role (role_in i members)
    where
      by_role : (r : Option Role) → IsValid (toggle_role members me i r s)
      by_role none = v
      by_role (some role) =
          if_both (is_creator members me) IsValid
            (record s {
              context_menu = none;
              requests =
                  change_role i (if same_role role admin then member else admin) ∷ s.requests;
            })
            s (λ c. (tt, ((c, t, not-creator (same_role role admin)), v.1), v.2, v.3)) (λ e. v)

  remove_from_group-IsValid :
      (m : Option ℕ) (s : Panel)
      → MenuIsValid m
      → IsValid s
      → IsValid (remove_from_group members me m s)
  unfolding remove_from_group remove_found
  remove_from_group-IsValid none s t v = v
  remove_from_group-IsValid (some i) s t v = by_role (role_in i members)
    where
      by_role : (r : Option Role) → IsValid (remove_found members me i r s)
      by_role none = v
      by_role (some role) =
          if_both (is_admin members me) IsValid
            (record s { context_menu = none; requests = remove_member i ∷ s.requests }) s
            (λ a. (tt, ((a, t), v.1), v.2, v.3)) (λ e. v)

  act-IsValid : (a : Action) (s : Panel) → IsValid s → IsValid (act a s)
  unfolding act closed_effect save_name name_saved open_menu leave delete_all name_changed type_name
      cancel_name edit_name upload remove_avatar open_add close_add
  act-IsValid close s v = (tt, v.1, (λ e. cc), (λ e. cc))
  act-IsValid press_name s v =
      if_both (is_admin members me) IsValid (record s { editing_name = true }) s
        (λ a. (v.0, v.1, (λ e. a), v.3)) (λ e. v)
  act-IsValid press_add s v =
      if_both (is_admin members me) IsValid (record s { show_add_modal = true }) s
        (λ a. (v.0, v.1, v.2, (λ e. a))) (λ e. v)
  act-IsValid end_add s v = (v.0, v.1, v.2, (λ e. cc))
  act-IsValid (renamed name) s v = v
  act-IsValid (typed text) s v =
      if_both s.editing_name IsValid (record s { name_value = text }) s (λ e. v) (λ e. v)
  act-IsValid (cancelled name) s v =
      if_both s.editing_name IsValid (record s { editing_name = false; name_value = name }) s
        (λ e. (v.0, v.1, (λ e. cc), v.3)) (λ e. v)
  act-IsValid (chosen has_file) s v =
      if_both (is_admin members me && has_file) IsValid
        (record s { requests = upload_avatar ∷ s.requests }) s
        (λ e. (v.0, (first-true (is_admin members me) has_file e, v.1), v.2, v.3)) (λ e. v)
  act-IsValid (press_avatar has_avatar) s v =
      if_both (is_admin members me && has_avatar) IsValid
        (record s { requests = delete_avatar ∷ s.requests }) s
        (λ e. (v.0, (first-true (is_admin members me) has_avatar e, v.1), v.2, v.3)) (λ e. v)
  act-IsValid (save name) s v =
      let new = trim s.name_value in
      let left = record s { editing_name = false } in
      let asked = record s { requests = update_name new ∷ s.requests } in
      if_both (not s.editing_name) IsValid s
        (if is_empty new || str_eq new name then left else asked) (λ e. v)
        (λ editing.
          if_both (is_empty new || str_eq new name) IsValid left asked
            (λ e. (v.0, v.1, (λ e. cc), v.3))
            (λ e. (v.0, (v.2 (not-false editing), v.1), v.2, v.3)))
  act-IsValid (saved true) s v = (v.0, v.1, (λ e. cc), v.3)
  act-IsValid (saved false) s v = v
  act-IsValid (menu i) s v = open_menu_for-IsValid i (role_in i members) s refl v
  act-IsValid press_toggle s v = toggle_admin-IsValid s.context_menu s v.0 v
  act-IsValid press_remove s v = remove_from_group-IsValid s.context_menu s v.0 v
  act-IsValid press_leave s v =
      if_both (not (is_creator members me)) IsValid
        (record s { requests = leave_group ∷ s.requests }) s
        (λ e. (v.0, (not-true e, v.1), v.2, v.3)) (λ e. v)
  act-IsValid press_delete s v =
      if_both (is_creator members me) IsValid (record s { requests = delete_group ∷ s.requests }) s
        (λ e. (v.0, (e, v.1), v.2, v.3)) (λ e. v)

  runs-IsValid : (later : List Action) (s : Panel) → IsValid s → IsValid (run later s)
  unfolding run
  runs-IsValid [] s v = v
  runs-IsValid (a ∷ later) s v = runs-IsValid later (act a s) (act-IsValid a s v)

  -- Whatever the user does with the panel, in any order, every request that it sends is allowed: only
  -- an admin or the creator changes the name or the avatar, and removes a member, who is neither the
  -- creator nor the user; only the creator changes a role, never that of the creator or the own one;
  -- and only the creator deletes the group instead of leaving it. And the dialog for new members is
  -- asked to open only for an admin or the creator. (The members stay the same meanwhile; at the start
  -- the panel is as it is mounted, and nothing was sent.)
  pub run-IsValid_panel :
      (actions : List Action) (group_name : Str)
      → let t = run actions (mounted group_name) in
        All IsAllowed t.requests × (t.show_add_modal ≡ true → is_admin members me ≡ true)
  run-IsValid_panel actions group_name =
      let v = runs-IsValid actions (mounted group_name) (tt, tt, (λ e. cc), (λ e. cc)) in (v.1, v.3)
