-- ===== src/RequestQueue/Arrivals.antt =====
-- Any number of calls of `insertRequest` of src/RequestQueue.cpp, one after the other.
use mcsim.Common.{◌≡◌, refl, sym, ◌∙◌, List, [], ◌∷◌, ◌++◌, append-nil, append_assoc, ap₂, ok}
use mcsim.Packet.{Request}
use mcsim.RequestQueue.{RequestQueue}
use mcsim.RequestQueue.Arrival.{
  HasWrites, Place, kept_writes, shared, requestor, waiting_at, belongs, only_if, IsListed,
  insert_request-Arrived,
}
use mcsim.RequestQueue.Writes.{insert_requests}

-- Those of the requests whose place this is, in their order.
pub share_of : RequestQueue → Place → List Request → List Request
share_of q p [] = []
share_of q p (r ∷ rs) = only_if (belongs q r p) r ++ share_of q p rs

belongs_kept :
    (q x : RequestQueue) (r : Request) (p : Place)
    → x.write_queue_enable ≡ q.write_queue_enable
    → x.per_requestor_enable ≡ q.per_requestor_enable
    → belongs x r p ≡ belongs q r p
belongs_kept q x r kept_writes a k = rw a refl
belongs_kept q x r shared a k = rw (a, k) refl
belongs_kept q x r (requestor id) a k = rw (a, k) refl

share_of_kept :
    (q x : RequestQueue) (p : Place) (rs : List Request)
    → x.write_queue_enable ≡ q.write_queue_enable
    → x.per_requestor_enable ≡ q.per_requestor_enable
    → share_of x p rs ≡ share_of q p rs
unfolding share_of
share_of_kept q x p [] a k = refl
share_of_kept q x p (r ∷ rs) a k =
    ap₂ (λ b l. only_if b r ++ l) (belongs_kept q x r p a k) (share_of_kept q x p rs a k)

-- The queue after the requests have come.
pub record AllArrived (q : RequestQueue) (rs : List Request) : Type 0 where
  pub queue : RequestQueue
  pub result : insert_requests q rs ≡ ok queue
  pub waits : (p : Place) → waiting_at queue p ≡ waiting_at q p ++ share_of q p rs
  pub listed : IsListed queue

-- A queue that has a write queue if it keeps writes apart, and in which every requestor with a list has a place
-- in the order of the requestors, takes any requests, one after the other. Then each place holds what it
-- held before and behind it, in the order of their arrival, just those of the requests whose place it is: the
-- writes where these are kept apart, and of the others those of the requestor, or all of them where the
-- requestors share a buffer. And again every requestor with a list has a place in the order.
pub insert_requests-Arrived :
    (q : RequestQueue) (rs : List Request) → HasWrites q → IsListed q → AllArrived q rs
unfolding insert_requests share_of
insert_requests-Arrived q [] h l = record {
  queue = q;
  result = refl;
  waits = λ p. sym (append-nil (waiting_at q p));
  listed = l;
}
insert_requests-Arrived q (r ∷ rs) h l =
    let one = insert_request-Arrived q r h in
    let rest = insert_requests-Arrived one.queue rs one.same_writes (one.listed l) in
    record {
      queue = rest.queue;
      result = rw one.result rest.result;
      waits = λ p.
          rest.waits p
          ∙ ap₂ (λ (a b : List Request). a ++ b) (one.waits p)
              (share_of_kept q one.queue p rs one.same_apart one.same_kind)
          ∙ append_assoc (waiting_at q p) (only_if (belongs q r p) r) (share_of q p rs);
      listed = rest.listed;
    }
