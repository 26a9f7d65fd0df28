-- ===== src/Pages/Landing/Tests.antt =====
-- An instance of the theorem about LandingPage.tsx with the lock closed and the command copied.
use cloud_weave.Prelude.{[], refl}
use cloud_weave.EventLoop.{World}
use cloud_weave.Pages.Landing.{Landing, Task, initial, lock, copy_install, handle}
use cloud_weave.Pages.Landing.Revealed.{
  Reachable, open_page, event, copying, locking, IsRevealed, IsTruthful, Reachable-IsRevealed,
}

unfoldable copying_world : World Landing Task
unfolding handle
copying_world = handle copy_install (handle lock (record { state = initial; now = 3; queue = [] }))

copying-Reachable : Reachable copying_world
unfolding copying_world handle
copying-Reachable = event (event (open_page 3) (locking refl)) (copying refl)

Reachable-IsRevealed_example : IsRevealed copying_world.state × IsTruthful copying_world
Reachable-IsRevealed_example = Reachable-IsRevealed copying-Reachable
