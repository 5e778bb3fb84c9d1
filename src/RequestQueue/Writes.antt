-- ===== src/RequestQueue/Writes.antt =====
-- The writes of src/RequestQueue.cpp that are kept apart: how they are read and removed, and the
-- functions that tell of the queue's state.
use mcsim.Common.{
  ℕ, ltb-suc, ◌≡◌, refl, ap, ◌∙◌, Bool, true, false, ◌&&◌, some, List, [], ◌∷◌, ◌++◌, length,
  append_assoc, append-nil, All, Outcome, ok, ◌>>=◌, defined, ◌==◌, if_rule, sym,
}
use mcsim.Packet.{Request, RequestType, data_read, data_write}
use mcsim.RequestQueue.{
  is_write, RequestQueue, WriteQueue, insert_request, insert_write, get_write, remove_write,
}

unfoldable pub write_size : RequestQueue → Outcome ℕ
write_size q = do w ← defined q.write_queue; ok (length w.writes)

unfoldable pub schedule_write_check : RequestQueue → Outcome Request
schedule_write_check q = do w ← defined q.write_queue; get_write w 0

unfoldable pub remove_write_request : RequestQueue → Outcome RequestQueue
remove_write_request q = do
  w ← defined q.write_queue
  w' ← remove_write w 0
  ok (record q { write_queue = some w' })

abbrev pub set_write_mode : RequestQueue → Bool → RequestQueue
set_write_mode q set = record q { write_mode = set }

abbrev pub is_write_mode : RequestQueue → Bool
is_write_mode q = q.write_mode

abbrev pub general_read_buffer_size : RequestQueue → ℕ
general_read_buffer_size q = length q.general_buffer

abbrev pub is_empty : RequestQueue → Bool
is_empty q = length q.general_buffer == 0

-- Arrivals, one after the other.
unfoldable pub insert_requests : RequestQueue → List Request → Outcome RequestQueue
insert_requests q [] = ok q
insert_requests q (r ∷ rs) = do q' ← insert_request q r; insert_requests q' rs

-- Writes served, as a scheduler does it: each is read and then removed.
pub serve_writes : RequestQueue → List Request → Outcome (List Request × RequestQueue)
serve_writes q [] = ok ([], q)
serve_writes q (_ ∷ turns) = do
  r ← schedule_write_check q
  q' ← remove_write_request q
  rest ← serve_writes q' turns
  ok (r ∷ rest.0, rest.1)

abbrev holding : RequestQueue → WriteQueue → List Request → RequestQueue
holding q w rs = record q { write_queue = some (record w { writes = rs }) }

kept_apart : (a : Bool) (t : RequestType) → a ≡ true → t ≡ data_write → (a && is_write t) ≡ true
kept_apart true data_write e h = refl
kept_apart true data_read e h = cc
kept_apart false t e h = cc

insert_write_request :
    (q : RequestQueue) (w : WriteQueue) (held : List Request) (r : Request)
    → q.write_queue_enable ≡ true
    → r.request_type ≡ data_write
    → insert_request (holding q w held) r ≡ ok (holding q w (held ++ r ∷ []))
unfolding insert_request insert_write
insert_write_request q w held r e h =
    if_rule (λ o. o ≡ ok (holding q w (held ++ r ∷ [])))
      (q.write_queue_enable && is_write r.request_type) (λ _. refl)
      (λ f. absurd (cc (sym (kept_apart q.write_queue_enable r.request_type e h) ∙ f)))

insert_requests-holding :
    (q : RequestQueue) (w : WriteQueue) (held rs : List Request)
    → q.write_queue_enable ≡ true
    → All (λ (r : Request). r.request_type ≡ data_write) rs
    → insert_requests (holding q w held) rs ≡ ok (holding q w (held ++ rs))
unfolding insert_requests
insert_requests-holding q w held [] e h = ap (λ l. ok (holding q w l)) (sym (append-nil held))
insert_requests-holding q w held (r ∷ rs) e h =
    ap (λ o. o >>= λ q'. insert_requests q' rs) (insert_write_request q w held r e h.0)
    ∙ insert_requests-holding q w (held ++ r ∷ []) rs e h.1
    ∙ ap (λ l. ok (holding q w l)) (append_assoc held (r ∷ []) rs)

serve_writes-holding :
    (q : RequestQueue) (w : WriteQueue) (rs left : List Request)
    → serve_writes (holding q w (rs ++ left)) rs ≡ ok (rs, holding q w left)
unfolding serve_writes schedule_write_check remove_write_request get_write remove_write
serve_writes-holding q w [] left = refl
serve_writes-holding q w (r ∷ rs) left =
    rw (ltb-suc (length (rs ++ left))) (rw (serve_writes-holding q w rs left) refl)

-- Let the queue keep writes apart and hold some, and let more writes arrive. Then the arrivals end
-- normally, and as many rounds of reading a write and removing it as there are writes then hand out the
-- writes held and those that arrived, in order, each once, and leave the write queue empty and the rest as
-- it was.
pub insert_requests-serve_writes :
    (q : RequestQueue) (w : WriteQueue) (rs : List Request)
    → q.write_queue_enable ≡ true
    → q.write_queue ≡ some w
    → All (λ (r : Request). r.request_type ≡ data_write) rs
    → (insert_requests q rs >>= λ q'. serve_writes q' (w.writes ++ rs))
      ≡ ok (w.writes ++ rs, record q { write_queue = some (record w { writes = [] }) })
insert_requests-serve_writes q w rs e f h =
    ap
      (λ o. insert_requests (record q { write_queue = o }) rs >>= λ q'.
        serve_writes q' (w.writes ++ rs))
      f
    ∙ ap (λ o. o >>= λ q'. serve_writes q' (w.writes ++ rs))
        (insert_requests-holding q w w.writes rs e h)
    ∙ ap (λ l. serve_writes (holding q w l) (w.writes ++ rs)) (sym (append-nil (w.writes ++ rs)))
    ∙ serve_writes-holding q w (w.writes ++ rs) []
