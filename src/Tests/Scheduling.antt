-- ===== src/Tests/Scheduling.antt =====
-- The request schedulers, the command generators, the timers and the refresh rounds.
use mcsim.Common.{ℕ, ◌≡◌, refl, some, List, [], ◌∷◌, length, ok, All, arith, empty_map}
use mcsim.Packet.{Request}
use mcsim.RequestQueue.Removal.{scheduled}
use mcsim.CommandGenerator.{CommandGenerator, new_close}
use mcsim.CommandGenerator
use mcsim.CommandGenerator.Shape.{Cracked, close_generate-Cracked}
use mcsim.RequestScheduler.{BankTable, schedule_fr}
use mcsim.RequestScheduler.Selection.{Selected, schedule_fr-Selected}
use mcsim.RequestScheduler.OpenPage.{Banks, IsPlaced, Tracks}
use mcsim.RequestScheduler.OpenPage.Generate.{Generated, open_generate-Generated}
use mcsim.RequestScheduler.OpenPage.Schedule.{Round, frfcfs_schedule-Round}
use mcsim.Tests.Sample.{shared_queue, read_of}

abbrev closed_rows : BankTable
closed_rows = empty_map

abbrev closed_banks : Banks
closed_banks = empty_map

abbrev fresh : CommandGenerator
fresh = CommandGenerator.new 8

fresh-Tracks : Tracks closed_rows fresh closed_banks
unfolding CommandGenerator.new
fresh-Tracks = record { rows = λ b. refl; firsts = λ b h. refl; bus = omega arith }

read_of-IsPlaced : (id address row time : ℕ) → IsPlaced (read_of id address 2 row time)
read_of-IsPlaced id address row time = record {
  in_rank = refl;
  mapped_rank = refl;
  mapped_bank = refl;
  in_banks = omega arith;
}

frfcfs_schedule-Round_example :
    Round closed_rows closed_banks fresh (shared_queue ∷ shared_queue ∷ [])
frfcfs_schedule-Round_example =
    frfcfs_schedule-Round closed_rows closed_banks fresh (shared_queue ∷ shared_queue ∷ [])
      fresh-Tracks (both, (both, tt))
  where
    both : All IsPlaced shared_queue.general_buffer
    both = (read_of-IsPlaced 0 64 7 5, (read_of-IsPlaced 1 128 9 3, tt))

open_generate-Generated_example : Generated closed_rows closed_banks fresh (read_of 0 64 2 7 5)
open_generate-Generated_example =
    open_generate-Generated closed_rows closed_banks fresh (read_of 0 64 2 7 5) fresh-Tracks
      (read_of-IsPlaced 0 64 7 5)

schedule_fr-Selected_example :
    (r : Request) × (before : List Request) × (schedule_fr closed_rows shared_queue
      ≡ ok (some r, scheduled shared_queue (length before)))
    × Selected closed_rows shared_queue.general_buffer r before
schedule_fr-Selected_example =
    schedule_fr-Selected closed_rows shared_queue (omega arith) (refl, (refl, tt))

close_table_new :
    (new_close 8).lookup_table ≡ CommandGenerator.close_table (new_close 8).data_bus_size
unfolding new_close CommandGenerator.new
close_table_new = refl

close_generate-Cracked_example : Cracked (new_close 8) (read_of 0 64 2 7 5) 2
unfolding new_close CommandGenerator.new
close_generate-Cracked_example =
    close_generate-Cracked (new_close 8) (read_of 0 64 2 7 5) 1 close_table_new (omega arith)
      (omega arith) (omega arith) refl
