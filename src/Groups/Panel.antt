-- ===== src/Groups/Panel.antt =====
-- frontend/src/features/chats/GroupInfoPanel.tsx: the state of the panel and its handlers. `requests`
-- are its calls of the server, newest first; the members are those of the last answer.
use nothingapp.Common.{
  ℕ, ◌==◌, Bool, true, false, not, ◌||◌, ◌&&◌, Option, none, some, List, [], ◌∷◌, find_first, trim,
  leb, Str, is_empty, str_eq, if◌then◌else◌,
}

pub data Role : Type 0 where
  creator admin member : Role

pub record GroupMember : Type 0 where
  pub user_id : ℕ
  pub role : Role

pub data Request : Type 0 where
  update_name : Str → Request
  remove_member : ℕ → Request
  change_role : ℕ → Role → Request
  leave_group delete_group upload_avatar delete_avatar : Request

pub record Panel : Type 0 where
  pub editing_name : Bool
  pub name_value : Str
  pub show_add_modal : Bool
  pub context_menu : Option ℕ
  pub requests : List Request

abbrev pub same_role : Role → Role → Bool
same_role creator creator = true
same_role admin admin = true
same_role member member = true
same_role _ _ = false

-- The place of a role in the list.
abbrev pub order : Role → ℕ
order creator = 0
order admin = 1
order member = 2

abbrev pub role_in : ℕ → List GroupMember → Option Role
role_in i ms = elim (find_first (λ (m : GroupMember). m.user_id == i) ms) [
  | none ↦ none
  | some m ↦ some m.role
]

abbrev pub has_role : Option Role → Role → Bool
has_role none r = false
has_role (some q) r = same_role q r

-- The effect of `isOpen`, when it is false.
unfoldable pub closed_effect : Panel → Panel
closed_effect s = record s { editing_name = false; show_add_modal = false; context_menu = none }

-- The effect of the name.
unfoldable pub name_changed : Str → Panel → Panel
name_changed group_name s = record s { name_value = group_name }

-- The field for the name, which is there while the name is edited.
unfoldable pub type_name : Str → Panel → Panel
type_name text s = if s.editing_name then record s { name_value = text } else s

-- Its button and its key that cancel.
unfoldable pub cancel_name : Str → Panel → Panel
cancel_name group_name s =
    if s.editing_name then record s { editing_name = false; name_value = group_name } else s

-- `handleSaveName`, which the field and its button start, before and after its request.
unfoldable pub save_name : Str → Panel → Panel
save_name group_name s =
    let name = trim s.name_value in
    if not s.editing_name
    then s
    else if is_empty name || str_eq name group_name
    then record s { editing_name = false }
    else record s { requests = update_name name ∷ s.requests }

unfoldable pub name_saved : Bool → Panel → Panel
name_saved true s = record s { editing_name = false }
name_saved false s = s

module _ (members : List GroupMember) (current_user_id : ℕ) where
  unfoldable pub is_creator : Bool
  is_creator = has_role (role_in current_user_id members) creator

  unfoldable pub is_admin : Bool
  unfolding is_creator
  is_admin = has_role (role_in current_user_id members) admin || is_creator

  -- A click on the name.
  unfoldable pub edit_name : Panel → Panel
  unfolding is_admin
  edit_name s = if is_admin then record s { editing_name = true } else s

  -- The file input over the avatar, with `handleAvatarUpload`, if a file was chosen.
  unfoldable pub upload : Bool → Panel → Panel
  unfolding is_admin
  upload has_file s =
      if is_admin && has_file then record s { requests = upload_avatar ∷ s.requests } else s

  -- The button under the name, with `handleDeleteAvatar`.
  unfoldable pub remove_avatar : Bool → Panel → Panel
  unfolding is_admin
  remove_avatar has_avatar s =
      if is_admin && has_avatar then record s { requests = delete_avatar ∷ s.requests } else s

  -- The button that opens the dialog for new members, and its closing.
  unfoldable pub open_add : Panel → Panel
  unfolding is_admin
  open_add s = if is_admin then record s { show_add_modal = true } else s

  unfoldable pub close_add : Panel → Panel
  close_add s = record s { show_add_modal = false }

  -- `handleMemberContextMenu`, for the role of the member that was found.
  unfoldable pub open_menu_for : ℕ → Option Role → Panel → Panel
  unfolding is_admin
  open_menu_for i none s = s
  open_menu_for i (some role) s =
      if (i == current_user_id) || same_role role creator
      then s
      else if is_admin
      then record s { context_menu = some i }
      else s

  unfoldable pub open_menu : ℕ → Panel → Panel
  unfolding open_menu_for
  open_menu i s = open_menu_for i (role_in i members) s

  -- The button of the menu for the role, which the creator sees, and `handleToggleAdmin`.
  unfoldable pub toggle_role : ℕ → Option Role → Panel → Panel
  unfolding is_creator
  toggle_role i none s = s
  toggle_role i (some role) s =
      if is_creator
      then record s {
        context_menu = none;
        requests = change_role i (if same_role role admin then member else admin) ∷ s.requests;
      }
      else s

  unfoldable pub toggle_admin : Option ℕ → Panel → Panel
  unfolding toggle_role
  toggle_admin none s = s
  toggle_admin (some i) s = toggle_role i (role_in i members) s

  -- The button of the menu that removes, and `handleRemoveMember`.
  unfoldable pub remove_found : ℕ → Option Role → Panel → Panel
  unfolding is_admin
  remove_found i none s = s
  remove_found i (some role) s =
      if is_admin
      then record s { context_menu = none; requests = remove_member i ∷ s.requests }
      else s

  unfoldable pub remove_from_group : Option ℕ → Panel → Panel
  unfolding remove_found
  remove_from_group none s = s
  remove_from_group (some i) s = remove_found i (role_in i members) s

  -- The buttons at the bottom, with `handleLeave` and `handleDelete`.
  unfoldable pub leave : Panel → Panel
  unfolding is_creator
  leave s = if not is_creator then record s { requests = leave_group ∷ s.requests } else s

  unfoldable pub delete_all : Panel → Panel
  unfolding is_creator
  delete_all s = if is_creator then record s { requests = delete_group ∷ s.requests } else s

-- The sort of `sortedMembers`, which is stable: a member goes before the first one whose role does
-- not come earlier.
unfoldable pub insert_member : GroupMember → List GroupMember → List GroupMember
insert_member m [] = m ∷ []
insert_member m (x ∷ xs) =
    let rest = insert_member m xs in
    if leb (order m.role) (order x.role) then m ∷ x ∷ xs else x ∷ rest

unfoldable pub sorted_members : List GroupMember → List GroupMember
unfolding insert_member
sorted_members [] = []
sorted_members (m ∷ ms) = insert_member m (sorted_members ms)
