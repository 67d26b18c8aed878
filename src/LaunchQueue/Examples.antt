-- ===== src/LaunchQueue/Examples.antt =====
-- core/launch_queue.c on a workspace of three items, with a callback that notes what it is given and
-- does not accept the second.
use nova_desktop.Base.{◌≡◌, refl, Bool, false, not, List, [], ◌∷◌, ◌++◌, arith, replicate}
use nova_desktop.Text.{Text, text_eq}
use nova_desktop.Workspace.{AppItem, Workspace, max_apps, items}
use nova_desktop.Workspace.Samples.{item, blank, holding, two_workspaces-IsValid}
use nova_desktop.LaunchQueue.{LaunchQueue, begin}
use nova_desktop.LaunchQueue.Invariant.{IsValid}
use nova_desktop.LaunchQueue.Drive.{drive, launch_all, begin-drive}

abbrev idle : LaunchQueue
idle = record { items = replicate max_apps blank; count = 0; next = 0; failed = 0; running = false }

idle-IsValid : IsValid idle
idle-IsValid = record {
  cells = refl;
  within = omega arith;
  next_within = omega arith;
  failed_within = omega arith;
  busy = λ h. cc;
}

abbrev note : AppItem → List Text → Bool × List Text
note a seen = (not (text_eq a.name (2 ∷ [])), seen ++ (a.target ∷ []))

abbrev three : Workspace
three = holding (item 1 ∷ item 2 ∷ item 3 ∷ [])

begin-drive_example :
    (let (end, final) = drive note max_apps (begin idle three).1 [] in
      (final ≡ (launch_all note (items three) []).1)
      × (end.failed ≡ (launch_all note (items three) []).0)
      × (end.next ≡ 3)
      × (end.running ≡ false))
unfolding begin
begin-drive_example = begin-drive note idle three [] idle-IsValid two_workspaces-IsValid.0 refl
