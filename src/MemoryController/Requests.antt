-- ===== src/MemoryController/Requests.antt =====
-- What `addRequest` of src/MemoryController.cpp does with a request that the address mapping has placed.
use mcsim.Common.{
  ℕ, ◌<◌, ◌≡◌, refl, sym, ap, ◌∙◌, subst, Bool, false, some, List, [], ◌∷◌, ◌++◌, Outcome, ok,
  ◌>>=◌, ok-injective, ◌==◌, All, get_elem?, set, length, get_elem?-in_range, get_elem?-set_self,
  get_elem?-set_ne, arith, if_rule, zero, suc, some-injective,
}
use mcsim.Packet.{Request, RequestType, data_read, data_write}
use mcsim.RequestQueue.{RequestQueue}
use mcsim.RequestQueue.Arrival.{
  HasWrites, Arrived, insert_request-Arrived, Place, waiting_at, belongs, only_if, IsListed,
}
use mcsim.MemoryController.State.{MemoryController}
use mcsim.MemoryController.Decode.{
  decode_queue, queue_number, first_marked, FitsMarked, NoWrap, decode_queue-lt-queue_number,
}
use mcsim.MemoryController.Enqueue.{add_request, add_pending, count_request, incoming, levels}

abbrev pub opposite : RequestType → RequestType
opposite data_read = data_write
opposite data_write = data_read

-- The requests of a kind that wait for their data.
abbrev pub pending_of : RequestType → MemoryController → List Request
pending_of data_read m = m.pending_read_request
pending_of data_write m = m.pending_write_request

-- What has become of a request `r`.
pub record Accepted (m : MemoryController) (r : Request) (result : Outcome MemoryController)
    : Type 0 where
  pub left : MemoryController
  pub index : ℕ
  pub queue : RequestQueue
  pub queue' : RequestQueue
  pub runs : result ≡ ok left
  pub routed : decode_queue m.mem_table (levels r.address_map) m.req_map ≡ ok index
  pub found : get_elem? m.request_queue index ≡ some queue
  pub found' : get_elem? left.request_queue index ≡ some queue'
  pub waits :
      (p : Place) → waiting_at queue' p ≡ waiting_at queue p ++ only_if (belongs queue r p) r
  pub listed : IsListed queue → IsListed queue'
  pub others :
      (j : ℕ) → (index == j) ≡ false → get_elem? left.request_queue j ≡ get_elem? m.request_queue j
  pub pending : pending_of r.request_type left ≡ pending_of r.request_type m ++ r ∷ []
  pub others_pending :
      pending_of (opposite r.request_type) left ≡ pending_of (opposite r.request_type) m

-- The controller that `addRequest` leaves, once the queues are known.
accepting : MemoryController → Request → List RequestQueue → MemoryController
accepting m r qs =
    add_pending (record (count_request m r.requestor_id) { request_queue = qs }) r.request_type r

counted_pending :
    (m : MemoryController) (id : ℕ) (t : RequestType)
    → pending_of t (count_request m id) ≡ pending_of t m
unfolding count_request
counted_pending m id data_read =
    if_rule (λ x. pending_of data_read x ≡ m.pending_read_request) (id == 0) (λ _. refl) (λ _. refl)
counted_pending m id data_write =
    if_rule (λ x. pending_of data_write x ≡ m.pending_write_request) (id == 0) (λ _. refl)
      (λ _. refl)

add_pending-request_queue :
    (m : MemoryController) (t : RequestType) (r : Request)
    → (add_pending m t r).request_queue ≡ m.request_queue
add_pending-request_queue m data_read r = refl
add_pending-request_queue m data_write r = refl

add_pending-pending_of :
    (m : MemoryController) (t : RequestType) (r : Request)
    → pending_of t (add_pending m t r) ≡ pending_of t m ++ r ∷ []
add_pending-pending_of m data_read r = refl
add_pending-pending_of m data_write r = refl

add_pending-opposite :
    (m : MemoryController) (t : RequestType) (r : Request)
    → pending_of (opposite t) (add_pending m t r) ≡ pending_of (opposite t) m
add_pending-opposite m data_read r = refl
add_pending-opposite m data_write r = refl

with_queues :
    (m : MemoryController) (t : RequestType) (qs : List RequestQueue)
    → pending_of t (record m { request_queue = qs }) ≡ pending_of t m
with_queues m data_read qs = refl
with_queues m data_write qs = refl

All-get_elem? :
    (qs : List RequestQueue) (i : ℕ) (q : RequestQueue)
    → All HasWrites qs
    → get_elem? qs i ≡ some q
    → HasWrites q
All-get_elem? [] i q h e = cc
All-get_elem? (x ∷ qs) zero q h e = subst HasWrites (some-injective _ _ e) h.0
All-get_elem? (x ∷ qs) (suc i) q h e = All-get_elem? qs i q h.1 e

-- One request, once its queue and the queue after the arrival are known.
accept :
    (f : Request → Outcome Request) (m : MemoryController) (id address : ℕ) (r_w : Bool)
    (size k : ℕ) (q : RequestQueue) (r : Request)
    → f (incoming m.clock_cycle id address r_w size) ≡ ok r
    → decode_queue m.mem_table (levels r.address_map) m.req_map ≡ ok k
    → get_elem? m.request_queue k ≡ some q
    → k < length m.request_queue
    → Arrived q r
    → Accepted m r (add_request f m id address r_w size)
unfolding accepting add_request
accept f m id address r_w size k q r mapped e g l a =
    let qs = set m.request_queue k a.queue in
    let c = record (count_request m r.requestor_id) { request_queue = qs } in
    let same : (accepting m r qs).request_queue ≡ qs =
      add_pending-request_queue c r.request_type r in
    record {
      left = accepting m r qs;
      index = k;
      queue = q;
      queue' = a.queue;
      runs = rw mapped (
          rw e (rw g (ap (λ o. o >>= λ x. ok (accepting m r (set m.request_queue k x))) a.result)));
      routed = e;
      found = g;
      found' = ap (λ l. get_elem? l k) same ∙ get_elem?-set_self m.request_queue k a.queue l;
      waits = a.waits;
      listed = a.listed;
      others = λ j n.
          ap (λ l. get_elem? l j) same
          ∙ get_elem?-set_ne m.request_queue k j a.queue (ground arith);
      pending =
          add_pending-pending_of c r.request_type r
          ∙ ap (λ x. x ++ r ∷ [])
              (with_queues _ r.request_type qs ∙ counted_pending m r.requestor_id r.request_type);
      others_pending =
          add_pending-opposite c r.request_type r
          ∙ with_queues _ (opposite r.request_type) qs
          ∙ counted_pending m r.requestor_id (opposite r.request_type);
    }

-- Let the address mapping give a request `r` whose address fits the memory, let the controller have as
-- many request queues as its structure says, without the number wrapping around, and let each queue that
-- keeps writes apart have a write queue. Then `addRequest` ends normally. In the queue that the address decodes
-- to, the request comes to the end of the place where it belongs, and every other place of the queue is as it was;
-- if every requestor with a list has a place in the queue's order, this is so afterwards, too. The other queues are unchanged. The request is the last one of the pending requests of its kind,
-- and those of the other kind are unchanged.
pub add_request-Accepted :
    (f : Request → Outcome Request) (m : MemoryController) (id address : ℕ) (r_w : Bool) (size : ℕ)
    (r : Request)
    → f (incoming m.clock_cycle id address r_w size) ≡ ok r
    → FitsMarked m.mem_table (levels r.address_map) (first_marked m.req_map 0)
    → NoWrap m.mem_table (first_marked m.req_map 0)
    → queue_number m.mem_table m.req_map ≡ ok (length m.request_queue)
    → All HasWrites m.request_queue
    → Accepted m r (add_request f m id address r_w size)
add_request-Accepted f m id address r_w size r mapped fits wraps number writes =
    let (k, n, e, c, l) =
      decode_queue-lt-queue_number m.mem_table (levels r.address_map) m.req_map fits wraps in
    let l' : k < length m.request_queue =
      subst (λ x. k < x) (ok-injective _ _ (sym c ∙ number)) l in
    let (q, g) = get_elem?-in_range m.request_queue k l' in
    accept f m id address r_w size k q r mapped e g l'
      (insert_request-Arrived q r (All-get_elem? m.request_queue k q writes g))
