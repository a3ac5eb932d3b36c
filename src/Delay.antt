-- ===== src/Delay.antt =====
-- src/lib.rs: the delay of a worker that can be stopped.
use xshm.Prelude.{Bool, false, if◌then◌else◌, List, [], ◌∷◌}

-- The loop of `wait_delay`: the values of `running` that it loads before its deadline, and the last one.
unfoldable pub wait_until : List Bool → Bool → Bool
wait_until [] last = last
wait_until (running ∷ loads) last =
    let rest = wait_until loads last in if running then rest else false

unfoldable pub wait_delay : (is_zero : Bool) → List Bool → Bool → Bool
unfolding wait_until
wait_delay is_zero loads last = if is_zero then last else wait_until loads last
