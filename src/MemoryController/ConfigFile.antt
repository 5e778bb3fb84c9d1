-- ===== src/MemoryController/ConfigFile.antt =====
-- The configuration file of src/MemoryController.cpp: `readConfigFile`, `SetKey` and what they call. A
-- text is the list of its bytes. Messages are left out.
pub mod Entries
pub mod RoundTrip
use mcsim.Common.{
  ℕ, zero, suc, ◌+◌, ◌-◌, ◌*◌, Bool, true, false, not, ◌&&◌, ◌||◌, Option, none, some, List, [],
  ◌∷◌, ◌++◌, ltb, leb, ◌==◌, if◌then◌else◌, u32_mod, Outcome, ok, ◌>>=◌, or_abort,
}

abbrev pub Text : Type 0
Text = List ℕ

-- `==` of strings.
unfoldable pub same : Text → Text → Bool
same [] [] = true
same (a ∷ as') (b ∷ bs) = let rest = same as' bs in if a == b then rest else false
same _ _ = false

-- `find_first_of`, for one character.
unfoldable pub find_first_of : ℕ → Text → Option ℕ
find_first_of c [] = none
find_first_of c (a ∷ as') = let rest = find_first_of c as' in if a == c then some 0 else later rest
  where
    later : Option ℕ → Option ℕ
    later none = none
    later (some i) = some (suc i)

-- The first `n` characters, and the others.
unfoldable pub take : ℕ → Text → Text
take zero as' = []
take (suc n) [] = []
take (suc n) (a ∷ as') = a ∷ take n as'

unfoldable pub drop : ℕ → Text → Text
drop zero as' = as'
drop (suc n) [] = []
drop (suc n) (a ∷ as') = drop n as'

abbrev pub is_blank : ℕ → Bool
is_blank c = c == b' ' || c == b'\t'

abbrev pub or_here : ℕ → Option ℕ → Option ℕ
or_here c none = if is_blank c then none else some 0
or_here c (some i) = some (suc i)

-- `find_last_not_of(" \t")`
unfoldable pub find_last_solid : Text → Option ℕ
find_last_solid [] = none
find_last_solid (a ∷ as') = or_here a (find_last_solid as')

abbrev pub trim_at : Text → Option ℕ → Text
trim_at line none = line
trim_at line (some i) = take (suc i) line

-- The trimming of the end, which leaves a line of blanks alone.
unfoldable pub trim : Text → Text
trim line = trim_at line (find_last_solid line)

-- What the file sets.
pub record Config : Type 0 where
  pub req_map : List ℕ
  pub cmd_map : List ℕ
  pub write_queue_enable : Bool
  pub requestor_req_q : Bool
  pub requestor_cmd_q : Bool
  pub config_table : Text → Option Text

abbrev is_digit : ℕ → Bool
is_digit c = leb b'0' c && leb c b'9'

unfoldable pub is_numeric : Text → Bool
is_numeric [] = true
is_numeric (c ∷ cs) = is_digit c && is_numeric cs

-- `ss >> intValue` on digits: 0 if there are none, the greatest value if it is too great.
unfoldable pub digits_value : ℕ → Text → ℕ
digits_value n [] = if ltb n u32_mod then n else u32_mod - 1
digits_value n (c ∷ cs) = digits_value (n * 10 + (c - b'0')) cs

unfoldable pub convert_number : Text → ℕ
convert_number input = if is_numeric input then digits_value 0 input else 0

-- `setQueue`, which appends.
unfoldable pub set_queue : Text → List ℕ → List ℕ
set_queue [] queue_map = queue_map
set_queue (c ∷ cs) queue_map = set_queue cs (queue_map ++ (if c == b'1' then 1 else 0) ∷ [])

abbrev pub request_queue_key : Text
request_queue_key =
    b'R' ∷ b'e' ∷ b'q' ∷ b'u' ∷ b'e' ∷ b's' ∷ b't' ∷ b'Q' ∷ b'u' ∷ b'e' ∷ b'u' ∷ b'e' ∷ []

abbrev pub write_queue_key : Text
write_queue_key = b'W' ∷ b'r' ∷ b'i' ∷ b't' ∷ b'e' ∷ b'Q' ∷ b'u' ∷ b'e' ∷ b'u' ∷ b'e' ∷ []

abbrev pub req_per_req_key : Text
req_per_req_key = b'R' ∷ b'e' ∷ b'q' ∷ b'P' ∷ b'e' ∷ b'r' ∷ b'R' ∷ b'E' ∷ b'Q' ∷ []

abbrev pub command_queue_key : Text
command_queue_key =
    b'C' ∷ b'o' ∷ b'm' ∷ b'm' ∷ b'a' ∷ b'n' ∷ b'd' ∷ b'Q' ∷ b'u' ∷ b'e' ∷ b'u' ∷ b'e' ∷ []

abbrev pub cmd_per_req_key : Text
cmd_per_req_key = b'C' ∷ b'm' ∷ b'd' ∷ b'P' ∷ b'e' ∷ b'r' ∷ b'R' ∷ b'E' ∷ b'Q' ∷ []

-- `SetKey`
unfoldable pub set_key : Text → Text → Config → Config
set_key key value g =
    if same key request_queue_key
    then record g { req_map = set_queue value g.req_map }
    else if same key write_queue_key
    then record g { write_queue_enable = not (convert_number value == 0) }
    else if same key req_per_req_key
    then record g { requestor_req_q = not (convert_number value == 0) }
    else if same key command_queue_key
    then record g { cmd_map = set_queue value g.cmd_map }
    else if same key cmd_per_req_key
    then record g { requestor_cmd_q = not (convert_number value == 0) }
    else record g { config_table = λ k. if same k key then some value else g.config_table k }

-- A line without its comment.
unfoldable pub read_entry : Text → Config → Outcome Config
read_entry line g = do
  let trimmed = trim line
  i ← or_abort (find_first_of b'=' trimmed)
  ok (set_key (take i trimmed) (drop (suc i) trimmed) g)

abbrev pub read_uncommented : Text → Config → Option ℕ → Outcome Config
read_uncommented line g none = read_entry line g
read_uncommented line g (some zero) = ok g
read_uncommented line g (some (suc i)) = read_entry (take (suc i) line) g

-- One round of the loop.
unfoldable pub read_line : Text → Config → Outcome Config
read_line [] g = ok g
read_line (c ∷ cs) g = read_uncommented (c ∷ cs) g (find_first_of b';' (c ∷ cs))

abbrev pub push : ℕ → List Text → List Text
push c [] = (c ∷ []) ∷ []
push c (l ∷ ls) = (c ∷ l) ∷ ls

-- What the calls of `getline` give until the end of the file; the last of them may be empty.
unfoldable pub lines : Text → List Text
lines [] = [] ∷ []
lines (c ∷ cs) = let rest = lines cs in if c == b'\n' then [] ∷ rest else push c rest

unfoldable pub read_lines : List Text → Config → Outcome Config
read_lines [] g = ok g
read_lines (l ∷ ls) g = do g' ← read_line l g; read_lines ls g'

-- `readConfigFile`: a file that does not open changes nothing.
unfoldable pub read_config_file : Option Text → Config → Outcome Config
read_config_file none g = ok g
read_config_file (some text) g = read_lines (lines text) g
