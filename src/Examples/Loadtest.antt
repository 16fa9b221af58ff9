-- ===== src/Examples/Loadtest.antt =====
-- tools/loadtest/main.go at three requests and two submitters.
use chroma_flow.Base.{◌+◌, ◌≡◌, true, pos}
use chroma_flow.Loadtest.{Run, start, Reach, IsOver, passes, times}
use chroma_flow.Loadtest.Counts.{load_test_counts}

load_test_counts_example :
    ((s : Run)
      → Reach (start (pos 3) (pos 2)) s
      → IsOver (pos 2) s
      → s.accepted + s.failed + s.skipped ≡ 3)
    × ((s : Run) × Reach (start (pos 3) (pos 2)) s
        × IsOver (pos 2) s
        × (s.skipped ≡ 3)
        × (s.accepted ≡ 0)
        × (passes s ≡ true))
unfolding times
load_test_counts_example = load_test_counts (pos 3) (pos 2)
