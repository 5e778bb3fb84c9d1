-- ===== src/MemoryController/Connect.antt =====
-- `connectMemoryDevice` of src/MemoryController.cpp: the controller's queues and its address mapping, from
-- the configuration and the device. The lookup of the schedulers by name is left out.
use mcsim.Common.{
  ℕ, zero, suc, ◌≡◌, refl, ap, ◌∙◌, sym, Bool, true, false, List, [], ◌∷◌, length, All, Map, insert,
  get_or, inl, inr, Outcome, ok, ◌>>=◌, arith,
}
use mcsim.Packet.{Request}
use mcsim.RequestQueue.{RequestQueue}
use mcsim.RequestQueue
use mcsim.RequestQueue.Arrival.{HasWrites}
use mcsim.CommandQueue.{CommandQueue}
use mcsim.CommandQueue
use mcsim.AddressMapping.{DecodeIndex}
use mcsim.AddressMapping
use mcsim.MemoryController.State.{MemoryController}
use mcsim.MemoryController.Decode.{
  queue_number, first_marked, FitsMarked, NoWrap, decode_queue-lt-queue_number,
}
use mcsim.MemoryController.Enqueue.{add_request, incoming, levels}
use mcsim.MemoryController.Requests.{Accepted, add_request-Accepted}
use mcsim.MemoryController.ConfigFile.{Text, Config}

-- The device's getters.
pub record Sizes : Type 0 where
  pub ranks : ℕ
  pub bank_groups : ℕ
  pub banks : ℕ
  pub rows : ℕ
  pub columns : ℕ
  pub data_bus : ℕ

-- `memTable`; the entry of the sub-arrays is what the memory held.
abbrev pub mem_table_of : Sizes → ℕ → List ℕ
mem_table_of d sub_arrays = d.ranks ∷ d.bank_groups ∷ d.banks ∷ sub_arrays ∷ d.rows ∷ d.columns ∷ []

-- The loop that calls `setRequestor`, which finds every requestor critical.
unfoldable pub set_requestors : ℕ → Map Bool → Map Bool
set_requestors zero table = table
set_requestors (suc n) table = insert (set_requestors n table) n true

-- `n` new objects.
unfoldable pub replicate {ℓ} : {A : Type ℓ} → ℕ → A → List A
replicate zero x = []
replicate (suc n) x = x ∷ replicate n x

abbrev pub address_mapping_key : Text
address_mapping_key =
    b'A' ∷ b'd' ∷ b'd' ∷ b'r' ∷ b'e' ∷ b's' ∷ b's' ∷ b'M' ∷ b'a' ∷ b'p' ∷ b'p' ∷ b'i' ∷ b'n' ∷ b'g'
    ∷ []

pub record Connected : Type 0 where
  pub controller : MemoryController
  pub command_queues : List CommandQueue
  pub address_mapping : DecodeIndex

-- `connectMemoryDevice`, on a controller that has no queues yet.
unfoldable pub connect_memory_device :
    Config → MemoryController → (number_requestors sub_arrays : ℕ) → Sizes → Outcome Connected
unfolding replicate set_requestors
connect_memory_device g m number_requestors sub_arrays d = do
  let mem_table = mem_table_of d sub_arrays
  requests ← queue_number mem_table g.req_map
  commands ← queue_number mem_table g.cmd_map
  index ← AddressMapping.new (get_or (g.config_table address_mapping_key) []) mem_table
  ok (record {
    controller = record m {
      mem_table = mem_table;
      data_bus_width = d.data_bus;
      requestor_critical_table = set_requestors number_requestors m.requestor_critical_table;
      req_map = g.req_map;
      cmd_map = g.cmd_map;
      write_queue_enable = g.write_queue_enable;
      request_queue = replicate requests (RequestQueue.new g.requestor_req_q g.write_queue_enable);
    };
    command_queues = replicate commands (CommandQueue.new g.requestor_cmd_q);
    address_mapping = index;
  })

length-replicate {ℓ} : {A : Type ℓ} (n : ℕ) (x : A) → length (replicate n x) ≡ n
unfolding replicate
length-replicate zero x = refl
length-replicate (suc n) x = omega (arith, length-replicate n x)

All-replicate {ℓ κ} : {A : Type ℓ} (P : A → Type κ) (n : ℕ) (x : A) → P x → All P (replicate n x)
unfolding replicate
All-replicate P zero x h = tt
All-replicate P (suc n) x h = (h, All-replicate P n x h)

new-HasWrites : (p w : Bool) → HasWrites (RequestQueue.new p w)
unfolding RequestQueue.new
new-HasWrites p false = inl refl
new-HasWrites p true = inr (_, refl)

-- Let the address mapping be a function that gives a request `r` whose address fits the device, and let the numbers
-- of request and of command queues be defined, the former without wrapping around, and the characters of
-- the configured format have levels. Then `connectMemoryDevice` ends normally, and `addRequest` on the
-- controller that it makes ends normally with the request in the queue that its address decodes to.
pub connect_memory_device-Accepted :
    (g : Config) (m : MemoryController) (number_requestors sub_arrays : ℕ) (d : Sizes)
    (commands : ℕ) (index : DecodeIndex) (f : Request → Outcome Request) (id address : ℕ)
    (r_w : Bool) (size : ℕ) (r : Request)
    → f (incoming m.clock_cycle id address r_w size) ≡ ok r
    → FitsMarked (mem_table_of d sub_arrays) (levels r.address_map) (first_marked g.req_map 0)
    → NoWrap (mem_table_of d sub_arrays) (first_marked g.req_map 0)
    → queue_number (mem_table_of d sub_arrays) g.cmd_map ≡ ok commands
    → AddressMapping.new
        (get_or (g.config_table address_mapping_key) [])
        (mem_table_of d sub_arrays)
      ≡ ok index
    → (c : Connected) × (connect_memory_device g m number_requestors sub_arrays d ≡ ok c)
      × Accepted c.controller r (add_request f c.controller id address r_w size)
unfolding connect_memory_device
connect_memory_device-Accepted g m number_requestors sub_arrays d commands index f id address r_w
      size r placed fits wraps number_cmd mapping =
    let table = mem_table_of d sub_arrays in
    let (_, n, _, number, _) =
      decode_queue-lt-queue_number table (levels r.address_map) g.req_map fits wraps in
    let c : Connected = record {
      controller = record m {
        mem_table = table;
        data_bus_width = d.data_bus;
        requestor_critical_table = set_requestors number_requestors m.requestor_critical_table;
        req_map = g.req_map;
        cmd_map = g.cmd_map;
        write_queue_enable = g.write_queue_enable;
        request_queue = replicate n (RequestQueue.new g.requestor_req_q g.write_queue_enable);
      };
      command_queues = replicate commands (CommandQueue.new g.requestor_cmd_q);
      address_mapping = index;
    } in
    (
      c,
      rw number (rw number_cmd (rw mapping refl)),
      add_request-Accepted f c.controller id address r_w size r placed fits wraps
          (number ∙ ap ok (sym (length-replicate n _)))
          (All-replicate HasWrites n _ (new-HasWrites g.requestor_req_q g.write_queue_enable)),
    )
