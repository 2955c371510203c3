-- ===== src/Groups/Tests.antt =====
-- The panel of a group with its creator, an admin and two members.
use nothingapp.Common.{
  ◌≡◌, refl, true, List, [], ◌∷◌, All, codes, trim, trim_end, trim_start, is_space,
}
use nothingapp.Groups.Panel.{
  GroupMember, creator, admin, member, remove_member, update_name, is_admin, change_role,
  sorted_members,
}
use nothingapp.Groups.Allowed.{
  Action, press_name, typed, save, mounted, menu, press_toggle, press_remove, press_leave,
  IsAllowed, run, run-IsValid_panel,
}

abbrev four_members : List GroupMember
four_members =
    record { user_id = 3; role = member }
    ∷ record { user_id = 2; role = admin }
    ∷ record { user_id = 1; role = creator }
    ∷ record { user_id = 4; role = member }
    ∷ []

-- A new name, a menu for the own row, one for a member, and the buttons.
abbrev actions : List Action
actions =
    press_name
    ∷ typed (codes "Crew")
    ∷ save (codes "Team")
    ∷ menu 1
    ∷ press_remove
    ∷ menu 3
    ∷ press_toggle
    ∷ menu 2
    ∷ press_remove
    ∷ press_leave
    ∷ []

sorted_members_four :
    sorted_members four_members
    ≡ record { user_id = 1; role = creator }
      ∷ record { user_id = 2; role = admin }
      ∷ record { user_id = 3; role = member }
      ∷ record { user_id = 4; role = member }
      ∷ []
unfolding sorted_members
sorted_members_four = refl

run_four :
    (run four_members 1 actions (mounted (codes "Team"))).requests
    ≡ remove_member 2 ∷ change_role 3 admin ∷ update_name (codes "Crew") ∷ []
unfolding run trim trim_end trim_start is_space
run_four = refl

run-IsValid_panel_example :
    let t = run four_members 1 actions (mounted (codes "Team")) in
    All (IsAllowed four_members 1) t.requests
    × (t.show_add_modal ≡ true → is_admin four_members 1 ≡ true)
run-IsValid_panel_example = run-IsValid_panel four_members 1 actions (codes "Team")
