-- ===== src/RequestQueue/WriteDrain.antt =====
-- `switchMode` of src/RequestQueue.cpp: the hysteresis between serving reads and draining writes.
use mcsim.Common.{
  ◌≡◌, ◌<◌, refl, Bool, true, false, not, List, [], ◌∷◌, ◌++◌, some, Outcome, ok, ◌>>=◌, arith, All,
  length, if◌then◌else◌, ltb, ◌==◌,
}
use mcsim.RequestQueue.{RequestQueue, WriteQueue, switch_mode}

-- A call with `w` as its write queue answers "serve reads" exactly if it leaves the flag down. The
-- flag goes up only above the high watermark, and comes down only when no write is left.
pub switch_mode_lem :
    (q : RequestQueue) (w : WriteQueue)
    → q.write_queue ≡ some w
    → let up =
        if q.flag then not (length w.writes == 0) else ltb w.highwatermark (length w.writes) in
      switch_mode q ≡ ok (not up, record q { flag = up })
unfolding switch_mode
switch_mode_lem q w e = ground arith

-- A run of calls, each after the write queue has become the given one: the answers.
pub answers : RequestQueue → List WriteQueue → Outcome (List Bool)
answers q [] = ok []
answers q (w ∷ ws) = do
  now ← switch_mode (record q { write_queue = some w })
  rest ← answers now.1 ws
  ok (now.0 ∷ rest)

abbrev pub all_false : List WriteQueue → List Bool
all_false [] = []
all_false (w ∷ ws) = false ∷ all_false ws

-- Once the flag is up, reads wait for as long as every call finds a write left, however few.
drain_while :
    (q : RequestQueue) (ws : List WriteQueue) (last : WriteQueue)
    → q.flag ≡ true
    → All (λ (w : WriteQueue). 0 < length w.writes) ws
    → length last.writes ≡ 0
    → answers q (ws ++ last ∷ []) ≡ ok (all_false ws ++ true ∷ [])
unfolding answers switch_mode
drain_while q [] last up h e = ground arith
drain_while q (w ∷ ws) last up h e =
    ground (arith, h.0, drain_while (record q { write_queue = some w }) ws last up h.1 e)

first_answer :
    (q : RequestQueue) (w : WriteQueue)
    → w.highwatermark < length w.writes
    → switch_mode (record q { write_queue = some w })
      ≡ ok (false, record q { write_queue = some w; flag = true })
unfolding switch_mode
first_answer q w full = ground arith

-- A write queue above its high watermark is drained to the end: reads are refused in that call and
-- in every later one that finds a write left, until a call finds none, which allows them again.
pub drain_to_empty :
    (q : RequestQueue) (w : WriteQueue) (ws : List WriteQueue) (last : WriteQueue)
    → w.highwatermark < length w.writes
    → All (λ (v : WriteQueue). 0 < length v.writes) ws
    → length last.writes ≡ 0
    → answers q (w ∷ (ws ++ last ∷ [])) ≡ ok (all_false (w ∷ ws) ++ true ∷ [])
unfolding answers
drain_to_empty q w ws last full left e =
    rw (first_answer q w full)
      (rw (drain_while (record q { write_queue = some w; flag = true }) ws last refl left e))
