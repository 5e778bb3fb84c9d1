-- ===== src/RequestQueue/Turns.antt =====
-- What the policies that take turns between the requestors' buffers of src/RequestQueue.cpp use: the
-- size of the buffer in a place of the order, its first request, and the arrivals between two calls.
use mcsim.Common.{
  get_elem?-append, some_unique, if_false, ltb-suc, append-nil, append_assoc, ◌≤◌, if_rule, ℕ, suc,
  ◌≡◌, refl, sym, ap, ◌∙◌, true, false, some, List, [], ◌∷◌, ◌++◌, ok, ◌>>=◌, insert, find_or,
  is_key, arith, length, get_elem?, find_or-insert, Bool-cases, inl, inr, length-append, ==_iff,
  ◌==◌,
}
use mcsim.Packet.{Request}
use mcsim.RequestQueue.{
  RequestQueue, buffer_of, get_size, requestor_size, get_requestor_request, remove_request,
  insert_read, check_request_index, erase_checked,
}
use mcsim.RequestQueue.Arrival.{not_entered}
use mcsim.RequestQueue.Removal.{requestor_scheduled}

requestor_size_at :
    (q : RequestQueue) (ids : List ℕ) (place : ℕ) {id : ℕ}
    → get_elem? ids place ≡ some id
    → requestor_size q ids place ≡ ok (length (buffer_of q id))
requestor_size_at q [] place e = cc
requestor_size_at q (k ∷ ks) place e = rw e

pub get_size_at :
    (q : RequestQueue) (place : ℕ) {id : ℕ}
    → get_elem? q.requestor_order place ≡ some id
    → get_size q true place ≡ ok (length (buffer_of q id))
unfolding get_size
get_size_at q place e = requestor_size_at q q.requestor_order place e

-- The queue after the first request of a requestor was read and removed.
abbrev pub taken : RequestQueue → ℕ → List Request → RequestQueue
taken q id rest = record (requestor_scheduled q id 0) {
  requestor_buffer = insert q.requestor_buffer id rest;
}

-- The requestor `id` stands in `place`, and `r` is the first of its requests.
pub record Front (q : RequestQueue) (place id : ℕ) (r : Request) (rest : List Request)
    : Type 0 where
  pub named : get_elem? q.requestor_order place ≡ some id
  pub waits : buffer_of q id ≡ r ∷ rest

module _ (q : RequestQueue) (place id : ℕ) (r : Request) (rest : List Request) where
  pub get_requestor_request_front :
      Front q place id r rest
      → get_requestor_request q place 0 ≡ ok (some r, requestor_scheduled q id 0)
  unfolding get_requestor_request
  get_requestor_request_front f = rw (f.named, f.waits)

  pub remove_request_front :
      Front q place id r rest → remove_request (requestor_scheduled q id 0) ≡ ok (taken q id rest)
  unfolding remove_request
  remove_request_front f = rw (f.waits, ltb-suc (length rest)) refl

  pub get_size_front : Front q place id r rest → get_size q true place ≡ ok (suc (length rest))
  get_size_front f = get_size_at q place f.named ∙ ap (λ l. ok (length l)) f.waits

-- The requests that come before a call of the policy, one after the other.
abbrev pub arrive : RequestQueue → List Request → RequestQueue
arrive q [] = q
arrive q (r ∷ rs) = arrive (insert_read q r) rs

module _ (q : RequestQueue) (place id : ℕ) (r : Request) (rest : List Request) where
  -- A requestor that has requests waiting has them in front of those that come.
  abbrev pub StillFront : RequestQueue → Type 0
  StillFront q' = (more : List Request) × Front q' place id r (rest ++ more)

  buffer_kept :
      (x : Request) (b : List Request)
      → ((x.requestor_id ≡ id) → b ≡ buffer_of q id ++ x ∷ [])
      → buffer_of q id ≡ r ∷ rest
      → (more : List Request) × (find_or (insert q.requestor_buffer x.requestor_id b) id []
          ≡ r ∷ rest ++ more)
  buffer_kept x b own e = elim (Bool-cases (id == x.requestor_id)) [
    | inl same ↦ (
      x ∷ [],
      find_or-insert q.requestor_buffer x.requestor_id b id []
          ∙ rw same (own (sym ((==_iff id x.requestor_id).0 same)) ∙ ap (λ l. l ++ x ∷ []) e),
    )
    | inr other ↦ (
      [],
      find_or-insert q.requestor_buffer x.requestor_id b id []
          ∙ rw other (e ∙ ap (λ l. r ∷ l) (sym (append-nil rest))),
    )
  ]

  insert_read-StillFront : (x : Request) → Front q place id r rest → StillFront (insert_read q x)
  unfolding insert_read
  insert_read-StillFront x f =
      if_rule StillFront q.per_requestor_enable
        (λ p.
          if_rule StillFront (is_key q.requestor_buffer x.requestor_id)
            (λ k.
              let (more, e) =
                buffer_kept x (buffer_of q x.requestor_id ++ x ∷ [])
                  (λ same. ap (λ i. buffer_of q i ++ x ∷ []) same) f.waits in
              (more, record { named = f.named; waits = e }))
            (λ k.
              let (more, e) =
                buffer_kept x (x ∷ [])
                  (λ same.
                    not_entered (q.requestor_buffer x.requestor_id) x k
                    ∙ ap (λ i. buffer_of q i ++ x ∷ []) same)
                  f.waits in
              (
                more,
                record {
                  named = get_elem?-append q.requestor_order (x.requestor_id ∷ []) place f.named;
                  waits = e;
                },
              )))
        (λ g. (
          [],
          record { named = f.named; waits = f.waits ∙ ap (λ l. r ∷ l) (sym (append-nil rest)) },
        ))

length-insert_read :
    (q : RequestQueue) (x : Request)
    → length q.requestor_order ≤ length (insert_read q x).requestor_order
unfolding insert_read
length-insert_read q x =
    if_rule (λ (z : RequestQueue). length q.requestor_order ≤ length z.requestor_order)
      q.per_requestor_enable
      (λ p.
        if_rule (λ (z : RequestQueue). length q.requestor_order ≤ length z.requestor_order)
          (is_key q.requestor_buffer x.requestor_id) (λ k. omega arith)
          (λ k. omega (arith, length-append q.requestor_order (x.requestor_id ∷ []))))
      (λ g. omega arith)

pub length-arrive :
    (q : RequestQueue) (xs : List Request)
    → length q.requestor_order ≤ length (arrive q xs).requestor_order
length-arrive q [] = omega arith
length-arrive q (x ∷ xs) = omega (arith, length-insert_read q x, length-arrive (insert_read q x) xs)

-- What comes stays behind the request that is first.
pub arrive-StillFront :
    (q : RequestQueue) (place id : ℕ) (r : Request) (rest xs : List Request)
    → Front q place id r rest
    → StillFront q place id r rest (arrive q xs)
arrive-StillFront q place id r rest [] f =
    ([], record { named = f.named; waits = f.waits ∙ ap (λ l. r ∷ l) (sym (append-nil rest)) })
arrive-StillFront q place id r rest (x ∷ xs) f =
    let (one, g) = insert_read-StillFront q place id r rest x f in
    let (more, h) = arrive-StillFront (insert_read q x) place id r (rest ++ one) xs g in
    (
      one ++ more,
      record { named = h.named; waits = h.waits ∙ ap (λ l. r ∷ l) (append_assoc rest one more) },
    )

erase_oldest :
    (rs : List Request) (index : ℕ) (r : Request) (rest : List Request)
    → rs ≡ r ∷ rest
    → index ≡ 0
    → erase_checked rs index ≡ ok rest
erase_oldest rs index r rest e z = rw (e, z, ltb-suc (length rest)) refl

-- A removal where the last read was of the oldest request.
pub remove_request_oldest :
    (q : RequestQueue) (r : Request) (rest : List Request)
    → q.scheduled_requestor ≡ false
    → q.scheduled_index ≡ 0
    → q.general_buffer ≡ r ∷ rest
    → remove_request q ≡ ok (record q { general_buffer = rest })
unfolding remove_request
remove_request_oldest q r rest m z e =
    if_false q.scheduled_requestor _ _ m
    ∙ ap (λ o. o >>= λ left. ok (record q { general_buffer = left }))
        (erase_oldest q.general_buffer q.scheduled_index r rest e z)

-- A place has one requestor, and its buffer one first request.
pub Front_unique :
    (q : RequestQueue) (place a b : ℕ) (r s : Request) (xs ys : List Request)
    → Front q place a r xs
    → Front q place b s ys
    → (a ≡ b) × (r ≡ s)
Front_unique q place a b r s xs ys f g =
    let same = some_unique (get_elem? q.requestor_order place) f.named g.named in
    (same, first_of r s xs ys (sym f.waits ∙ ap (buffer_of q) same ∙ g.waits))
  where
    first_of : (r s : Request) (xs ys : List Request) → r ∷ xs ≡ s ∷ ys → r ≡ s
    first_of r s xs ys e = cc

pub check_request_index_front :
    (q : RequestQueue) (place id : ℕ) (r : Request) (rest : List Request)
    → Front q place id r rest
    → check_request_index q place 0 ≡ ok (some r)
unfolding check_request_index
check_request_index_front q place id r rest f = rw (f.named, f.waits)
