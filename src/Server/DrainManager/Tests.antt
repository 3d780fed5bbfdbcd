-- ===== src/Server/DrainManager/Tests.antt =====
-- Runs of the drain manager.
use meliproxy.Server.DrainManager.{
  seconds-Drains, seconds, start_drain_sequence, fresh, drain_close,
}
use meliproxy.Shared.{leb, ◌||◌, false, ltb, true, arith, ◌≡◌, if◌then◌else◌}

seconds-Drains_example :
    ((seconds 10 4 (start_drain_sequence 10 true fresh)).completions ≡ (if leb 10 5 then 1 else 0))
    × ((seconds 10 4 (start_drain_sequence 10 true fresh)).is_enabled ≡ ltb 5 10)
    × (drain_close 10 false 23 (seconds 10 4 (start_drain_sequence 10 true fresh))
        ≡ (false || (leb 10 5 || ltb 3 5)))
seconds-Drains_example = seconds-Drains 10 4 23 false (omega arith) (omega arith)
