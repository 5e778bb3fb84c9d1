-- ===== src/RequestQueue/Removal.antt =====
-- The two-step removal of src/RequestQueue.cpp: `getRequest` remembers where it read, and
-- `removeRequest` erases there.
use mcsim.Common.{
  ℕ, ◌≡◌, ◌∙◌, ap, subst, true, false, ◌>>=◌, List, [], ◌∷◌, ◌++◌, some, ok, insert, length, arith,
  Splits, get_elem?-Splits, get_elem?, >>=-eq-ok, defined-eq-ok, lt→ltb, defined, length-lt-middle,
  erase_at-middle,
}
use mcsim.Packet.{Request}
use mcsim.RequestQueue.{
  RequestQueue, read_at, get_request, get_requestor_request, remove_request, erase_checked,
  buffer_of, get_request_check,
}

read_at-get_elem? :
    (rs : List Request) (i : ℕ) {r : Request} → read_at rs i ≡ ok (some r) → get_elem? rs i ≡ some r
read_at-get_elem? [] i e = cc
read_at-get_elem? (x ∷ rs) i {r} e =
    let (found, read, same) = >>=-eq-ok (defined (get_elem? (x ∷ rs) i)) _ e in
    defined-eq-ok _ read ∙ cc

erase_checked-Splits :
    (rs : List Request) (i : ℕ) {r : Request} (s : Splits rs i r)
    → erase_checked rs i ≡ ok (s.before ++ s.after)
erase_checked-Splits rs i s = rw (lt→ltb _ _ s.in_range) (ap ok s.erased)

abbrev pub scheduled : RequestQueue → ℕ → RequestQueue
scheduled q index = record q {
  scheduled_requestor = false;
  scheduled_id = 0;
  scheduled_index = index;
}

abbrev pub requestor_scheduled : RequestQueue → ℕ → ℕ → RequestQueue
requestor_scheduled q id index = record q {
  scheduled_requestor = true;
  scheduled_id = id;
  scheduled_index = index;
}

-- What a read that finds a request has done.
pub get_request_cases :
    (q : RequestQueue) (index : ℕ) (r : Request) (q' : RequestQueue)
    → get_request q index ≡ ok (some r, q')
    → (get_elem? q.general_buffer index ≡ some r) × (scheduled q index ≡ q')
unfolding get_request
get_request_cases q index r q' e =
    let (o, read, e') = >>=-eq-ok (read_at q.general_buffer index) _ e in
    let o_eq : o ≡ some r = ground arith in
    (read_at-get_elem? q.general_buffer index (read ∙ ap ok o_eq), ground arith)

get_requestor_request_cases :
    (q : RequestQueue) (req_index index : ℕ) (r : Request) (q' : RequestQueue)
    → get_requestor_request q req_index index ≡ ok (some r, q')
    → (id : ℕ) × (get_elem? q.requestor_order req_index ≡ some id)
      × (get_elem? (buffer_of q id) index ≡ some r)
      × (requestor_scheduled q id index ≡ q')
unfolding get_requestor_request
get_requestor_request_cases q req_index index r q' e =
    let (id, found, e') = >>=-eq-ok (defined (get_elem? q.requestor_order req_index)) _ e in
    let (o, read, e'') = >>=-eq-ok (read_at (buffer_of q id) index) _ e' in
    let o_eq : o ≡ some r = ground arith in
    (
      id,
      defined-eq-ok _ found,
      read_at-get_elem? (buffer_of q id) index (read ∙ ap ok o_eq),
      ground arith,
    )

remove_scheduled :
    (q : RequestQueue) (index : ℕ) {r : Request} (s : Splits q.general_buffer index r)
    → remove_request (scheduled q index)
      ≡ ok (record (scheduled q index) { general_buffer = s.before ++ s.after })
unfolding remove_request
remove_scheduled q index s =
    ap (λ m. m >>= λ rest. ok (record (scheduled q index) { general_buffer = rest }))
      (erase_checked-Splits q.general_buffer index s)

remove_requestor_scheduled :
    (q : RequestQueue) (id index : ℕ) {r : Request} (s : Splits (buffer_of q id) index r)
    → remove_request (requestor_scheduled q id index)
      ≡ ok (record (requestor_scheduled q id index) {
        requestor_buffer = insert q.requestor_buffer id (s.before ++ s.after);
      })
unfolding remove_request
remove_requestor_scheduled q id index s =
    ap
      (λ m. m >>= λ rest. ok (record (requestor_scheduled q id index) {
        requestor_buffer = insert q.requestor_buffer id rest;
      }))
      (erase_checked-Splits (buffer_of q id) index s)

-- The request that a general read returns is the one that the removal erases: the buffer loses
-- that position, and nothing else of the queue that the read left changes.
pub get_request-remove_request :
    (q : RequestQueue) (index : ℕ) (r : Request) (q' : RequestQueue)
    → get_request q index ≡ ok (some r, q')
    → (before : List Request) × (after : List Request) × (q.general_buffer ≡ before ++ r ∷ after)
      × (length before ≡ index)
      × (remove_request q' ≡ ok (record q' { general_buffer = before ++ after }))
get_request-remove_request q index r q' e =
    let (found, left) = get_request_cases q index r q' e in
    let s = get_elem?-Splits q.general_buffer index found in
    (
      s.before,
      s.after,
      s.whole,
      s.position,
      subst
          (λ (z : RequestQueue).
            remove_request z ≡ ok (record z { general_buffer = s.before ++ s.after }))
          left (remove_scheduled q index s),
    )

-- The request that a read of one requestor's buffer returns is the one that the removal erases: that
-- requestor's buffer loses that position, and nothing else of the queue that the read left changes.
pub get_requestor_request-remove_request :
    (q : RequestQueue) (req_index index : ℕ) (r : Request) (q' : RequestQueue)
    → get_requestor_request q req_index index ≡ ok (some r, q')
    → (id : ℕ) × (before : List Request) × (after : List Request) × (get_elem? q.requestor_order
          req_index
        ≡ some id)
      × (buffer_of q id ≡ before ++ r ∷ after)
      × (length before ≡ index)
      × (remove_request q'
          ≡ ok (record q' { requestor_buffer = insert q'.requestor_buffer id (before ++ after) }))
get_requestor_request-remove_request q req_index index r q' e =
    let (id, named, found, left) = get_requestor_request_cases q req_index index r q' e in
    let s = get_elem?-Splits (buffer_of q id) index found in
    (
      id,
      s.before,
      s.after,
      named,
      s.whole,
      s.position,
      subst
          (λ (z : RequestQueue).
            remove_request z
            ≡ ok (record z {
              requestor_buffer = insert z.requestor_buffer id (s.before ++ s.after);
            }))
          left (remove_requestor_scheduled q id index s),
    )

get_elem?-read_at :
    (rs : List Request) (i : ℕ) {r : Request} → get_elem? rs i ≡ some r → read_at rs i ≡ ok (some r)
get_elem?-read_at [] i e = cc
get_elem?-read_at (x ∷ rs) i e = rw e

pub get_request_found :
    (q : RequestQueue) (index : ℕ) (r : Request)
    → get_elem? q.general_buffer index ≡ some r
    → get_request q index ≡ ok (some r, scheduled q index)
unfolding get_request
get_request_found q index r e = rw (get_elem?-read_at q.general_buffer index e)

pub get_request_check_found :
    (q : RequestQueue) (index : ℕ) (r : Request)
    → get_elem? q.general_buffer index ≡ some r
    → get_request_check q index ≡ ok (some r)
unfolding get_request_check
get_request_check_found q index r e = get_elem?-read_at q.general_buffer index e

erase_checked-middle :
    (xs : List Request) (r : Request) (ys : List Request)
    → erase_checked (xs ++ r ∷ ys) (length xs) ≡ ok (xs ++ ys)
erase_checked-middle xs r ys =
    rw (lt→ltb _ _ (length-lt-middle xs r ys)) (ap ok (erase_at-middle xs r ys))

-- Erasing what a read found, in one equation.
pub remove_request_found :
    (q : RequestQueue) (before : List Request) (r : Request) (after : List Request)
    → q.general_buffer ≡ before ++ r ∷ after
    → remove_request (scheduled q (length before))
      ≡ ok (record (scheduled q (length before)) { general_buffer = before ++ after })
unfolding remove_request
remove_request_found q before r after e =
    ap (λ m. m >>= λ rest. ok (record (scheduled q (length before)) { general_buffer = rest }))
      (ap (λ rs. erase_checked rs (length before)) e ∙ erase_checked-middle before r after)
