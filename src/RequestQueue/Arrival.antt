-- ===== src/RequestQueue/Arrival.antt =====
-- Where `insertRequest` of src/RequestQueue.cpp puts a request.
use mcsim.Common.{
  ℕ, ◌≡◌, refl, sym, ap, ◌∙◌, Bool, true, false, ◌&&◌, not, Option, none, some, List, [], ◌∷◌, ◌++◌,
  append-nil, if◌then◌else◌, if_rule, if_true, if_false, ok, ◌>>=◌, defined, insert, find_or,
  is_key, is_some, get_or, Bool-cases, inl, inr, ◌⊎◌, find_or-insert, is_key-insert, Map, ◌==◌,
  ==_iff, length, get_elem?, get_elem?-middle, get_elem?-append,
}
use mcsim.Packet.{Request}
use mcsim.RequestQueue.{
  RequestQueue, WriteQueue, buffer_of, insert_request, insert_read, insert_write, is_write,
}

abbrev pub writes_of : Option WriteQueue → List Request
writes_of none = []
writes_of (some w) = w.writes

-- A queue that keeps writes apart has a list for them.
abbrev pub HasWrites : RequestQueue → Type 0
HasWrites q = (q.write_queue_enable ≡ false) ⊎ ((w : WriteQueue) × (q.write_queue ≡ some w))

abbrev pub is_kept_apart : RequestQueue → Request → Bool
is_kept_apart q r = q.write_queue_enable && is_write r.request_type

-- The places where a request can wait.
pub data Place : Type 0 where
  kept_writes : Place
  shared : Place
  requestor : ℕ → Place

-- What waits at a place.
abbrev pub waiting_at : RequestQueue → Place → List Request
waiting_at q kept_writes = writes_of q.write_queue
waiting_at q shared = q.general_buffer
waiting_at q (requestor id) = buffer_of q id

-- Whether the place is the request's.
abbrev pub belongs : RequestQueue → Request → Place → Bool
belongs q r kept_writes = is_kept_apart q r
belongs q r shared = not (is_kept_apart q r) && not q.per_requestor_enable
belongs q r (requestor id) =
    not (is_kept_apart q r) && (q.per_requestor_enable && (id == r.requestor_id))

abbrev pub only_if : Bool → Request → List Request
only_if b r = if b then r ∷ [] else []

-- Each requestor with a list has a place in the order.
abbrev pub IsListed : RequestQueue → Type 0
IsListed q =
    (id : ℕ)
    → is_key q.requestor_buffer id ≡ true
    → (k : ℕ) × (get_elem? q.requestor_order k ≡ some id)

-- The queue after a request has come.
pub record Arrived (q : RequestQueue) (r : Request) : Type 0 where
  pub queue : RequestQueue
  pub result : insert_request q r ≡ ok queue
  pub waits : (p : Place) → waiting_at queue p ≡ waiting_at q p ++ only_if (belongs q r p) r
  pub listed : IsListed q → IsListed queue
  pub same_writes : HasWrites queue
  pub same_apart : queue.write_queue_enable ≡ q.write_queue_enable
  pub same_kind : queue.per_requestor_enable ≡ q.per_requestor_enable

-- Nothing comes to a place that is not the request's.
stays : (l : List Request) (b : Bool) (r : Request) → b ≡ false → l ≡ l ++ only_if b r
stays l b r h = rw h (sym (append-nil l))

insert_request-write :
    (q : RequestQueue) (r : Request) (w : WriteQueue)
    → is_kept_apart q r ≡ true
    → q.write_queue ≡ some w
    → Arrived q r
unfolding insert_request insert_write
insert_request-write q r w t e = record {
  queue = record q { write_queue = some (insert_write w r) };
  result =
      rw t (ap (λ o. defined o >>= λ v. ok (record q { write_queue = some (insert_write v r) })) e);
  waits = waits;
  listed = λ h. h;
  same_writes = inr (insert_write w r, refl);
  same_apart = refl;
  same_kind = refl;
}
  where
    waits :
        (p : Place)
        → waiting_at (record q { write_queue = some (insert_write w r) }) p
          ≡ waiting_at q p ++ only_if (belongs q r p) r
    waits kept_writes = rw (e, t) refl
    waits shared = stays _ _ r (rw t refl)
    waits (requestor id) = stays _ _ r (rw t refl)

pub not_entered :
    (o : Option (List Request)) (r : Request) → is_some o ≡ false → r ∷ [] ≡ get_or o [] ++ r ∷ []
not_entered none r h = refl
not_entered (some l) r h = cc

-- The buffers after one requestor's list has been replaced.
buffers_after :
    (t : Map (List Request)) (id : ℕ) (r : Request) (l : List Request) (i : ℕ)
    → l ≡ find_or t id [] ++ r ∷ []
    → find_or (insert t id l) i [] ≡ find_or t i [] ++ only_if (i == id) r
buffers_after t id r l i e = elim (Bool-cases (i == id)) [
  | inl same ↦
      let at : i ≡ id = (==_iff i id).0 same in
      find_or-insert t id l i []
      ∙ if_true (i == id) l (find_or t i []) same
      ∙ e
      ∙ ap (λ j. find_or t j [] ++ r ∷ []) (sym at)
      ∙ ap (λ b. find_or t i [] ++ only_if b r) (sym same)
  | inr other ↦
      find_or-insert t id l i []
      ∙ if_false (i == id) l (find_or t i []) other
      ∙ stays (find_or t i []) (i == id) r other
]

-- A request that joins its requestor's list, which may be new.
joined :
    (q : RequestQueue) (r : Request) (l : List Request) (order : List ℕ)
    → is_kept_apart q r ≡ false
    → q.per_requestor_enable ≡ true
    → l ≡ buffer_of q r.requestor_id ++ r ∷ []
    → (p : Place)
    → waiting_at
        (record q {
          requestor_buffer = insert q.requestor_buffer r.requestor_id l;
          requestor_order = order;
        })
        p
      ≡ waiting_at q p ++ only_if (belongs q r p) r
joined q r l order n p e kept_writes = stays _ _ r n
joined q r l order n p e shared = stays _ _ r (rw (n, p) refl)
joined q r l order n p e (requestor id) =
    rw (n, p) (buffers_after q.requestor_buffer r.requestor_id r l id e)

-- A request that joins the general buffer.
joined_shared :
    (q : RequestQueue) (r : Request)
    → is_kept_apart q r ≡ false
    → q.per_requestor_enable ≡ false
    → (p : Place)
    → waiting_at (record q { general_buffer = q.general_buffer ++ r ∷ [] }) p
      ≡ waiting_at q p ++ only_if (belongs q r p) r
joined_shared q r n p kept_writes = stays _ _ r n
joined_shared q r n p shared = rw (n, p) refl
joined_shared q r n p (requestor id) = stays _ _ r (rw (n, p) refl)

-- A list for a requestor that has a place in the order.
IsListed-after :
    (q : RequestQueue) (id k : ℕ) (l : List Request) (order : List ℕ)
    → ((j i : ℕ) → get_elem? q.requestor_order j ≡ some i → get_elem? order j ≡ some i)
    → get_elem? order k ≡ some id
    → IsListed q
    → IsListed
        (record q { requestor_buffer = insert q.requestor_buffer id l; requestor_order = order })
IsListed-after q id k l order keeps here h i key = elim (Bool-cases (i == id)) [
  | inl same ↦ (k, here ∙ ap some (sym ((==_iff i id).0 same)))
  | inr other ↦
      let was : is_key q.requestor_buffer i ≡ true =
        sym (is_key-insert q.requestor_buffer id l i ∙ if_false _ _ _ other) ∙ key in
      let (j, at) = h i was in (j, keeps j i at)
]

-- What `insert_read` leaves.
record Joined (q : RequestQueue) (r : Request) (x : RequestQueue) : Type 0 where
  waits : (p : Place) → waiting_at x p ≡ waiting_at q p ++ only_if (belongs q r p) r
  listed : IsListed q → IsListed x
  same_writes : HasWrites x
  same_apart : x.write_queue_enable ≡ q.write_queue_enable
  same_kind : x.per_requestor_enable ≡ q.per_requestor_enable

insert_read-Joined :
    (q : RequestQueue) (r : Request)
    → is_kept_apart q r ≡ false
    → HasWrites q
    → Joined q r (insert_read q r)
unfolding insert_read
insert_read-Joined q r n h =
    let id = r.requestor_id in
    if_rule (Joined q r) q.per_requestor_enable
      (λ p.
        if_rule (Joined q r) (is_key q.requestor_buffer id)
          (λ k. record {
            waits = joined q r (buffer_of q id ++ r ∷ []) q.requestor_order n p refl;
            listed = λ l.
                let (j, at) = l id k in
                IsListed-after q id j (buffer_of q id ++ r ∷ []) q.requestor_order (λ _ _ e. e) at
                  l;
            same_writes = h;
            same_apart = refl;
            same_kind = refl;
          })
          (λ k. record {
            waits =
                joined q r (r ∷ []) (q.requestor_order ++ id ∷ []) n p
                  (not_entered (q.requestor_buffer id) r k);
            listed =
                IsListed-after q id (length q.requestor_order) (r ∷ [])
                  (q.requestor_order ++ id ∷ [])
                  (λ j i e. get_elem?-append q.requestor_order (id ∷ []) j e)
                  (get_elem?-middle q.requestor_order id []);
            same_writes = h;
            same_apart = refl;
            same_kind = refl;
          }))
      (λ p. record {
        waits = joined_shared q r n p;
        listed = λ l. l;
        same_writes = h;
        same_apart = refl;
        same_kind = refl;
      })

insert_request-read :
    (q : RequestQueue) (r : Request) → HasWrites q → is_kept_apart q r ≡ false → Arrived q r
unfolding insert_request
insert_request-read q r h n =
    let j = insert_read-Joined q r n h in
    record {
      queue = insert_read q r;
      result = rw n refl;
      waits = j.waits;
      listed = j.listed;
      same_writes = j.same_writes;
      same_apart = j.same_apart;
      same_kind = j.same_kind;
    }

-- One request, whatever its kind.
pub insert_request-Arrived : (q : RequestQueue) (r : Request) → HasWrites q → Arrived q r
insert_request-Arrived q r h = elim (Bool-cases (is_kept_apart q r)) [
  | inl t ↦ elim h [
    | inl off ↦ absurd (kept_off q.write_queue_enable (is_write r.request_type) t off)
    | inr (w, e) ↦ insert_request-write q r w t e
  ]
  | inr n ↦ insert_request-read q r h n
]
  where
    kept_off : (a b : Bool) → (a && b) ≡ true → a ≡ false → ⊥
    kept_off true b t off = cc
    kept_off false b t off = cc
