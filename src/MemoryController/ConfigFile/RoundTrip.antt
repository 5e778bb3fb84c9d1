-- ===== src/MemoryController/ConfigFile/RoundTrip.antt =====
-- Whole configuration files: what a file of entries, remarks and empty lines sets, and what a line
-- that is none of these does.
use mcsim.Common.{
  ℕ, zero, suc, ◌≡◌, refl, sym, ap, ◌∙◌, Option, none, some, List, [], ◌∷◌, ◌++◌, append_assoc, All,
  ok, aborted, ◌>>=◌, append-nil,
}
use mcsim.MemoryController.ConfigFile.{
  Text, find_first_of, take, find_last_solid, trim, trim_at, Config, set_key, read_entry, read_line,
  push, lines, read_lines, read_config_file,
}
use mcsim.MemoryController.ConfigFile.Entries.{
  Lacks, IsComment, Entry, print_entry, IsEntry, find_first_of-Lacks, read_line-uncommented,
  read_line-print_entry,
}

pub data Item : Type 0 where
  entry : Entry → Item
  remark : Text → Item
  blank : Item

abbrev pub print_item : Item → Text
print_item (entry e) = print_entry e
print_item (remark t) = b';' ∷ t
print_item blank = []

-- Each item on a line of its own.
abbrev pub print : List Item → Text
print [] = []
print (i ∷ is) = print_item i ++ b'\n' ∷ print is

abbrev pub IsItem : Item → Type 0
IsItem (entry e) = IsEntry e
IsItem _ = Unit

abbrev pub OneLine : Item → Type 0
OneLine i = Lacks b'\n' (print_item i)

-- What the items set, in order.
abbrev pub settings : List Item → Config → Config
settings [] g = g
settings (entry e ∷ is) g = settings is (set_key e.key e.value g)
settings (remark t ∷ is) g = settings is g
settings (blank ∷ is) g = settings is g

lines-append : (xs ys : Text) → Lacks b'\n' xs → lines (xs ++ b'\n' ∷ ys) ≡ xs ∷ lines ys
unfolding lines
lines-append [] ys h = refl
lines-append (x ∷ xs) ys h = rw h.0 (ap (push x) (lines-append xs ys h.1))

abbrev setting : Item → Config → Config
setting (entry e) g = set_key e.key e.value g
setting _ g = g

read_item : (i : Item) (g : Config) → IsItem i → read_line (print_item i) g ≡ ok (setting i g)
unfolding read_line find_first_of
read_item (entry e) g h = read_line-print_entry e g h
read_item (remark t) g h = refl
read_item blank g h = refl

settings-cons :
    (i : Item) (is : List Item) (g : Config) → settings is (setting i g) ≡ settings (i ∷ is) g
settings-cons (entry e) is g = refl
settings-cons (remark t) is g = refl
settings-cons blank is g = refl

read_lines-print :
    (is : List Item) (tail : Text) (g : Config)
    → All IsItem is
    → All OneLine is
    → read_lines (lines (print is ++ tail)) g ≡ read_lines (lines tail) (settings is g)
unfolding read_lines
read_lines-print [] tail g h l = refl
read_lines-print (i ∷ is) tail g h l =
    ap (λ t. read_lines (lines t) g) (append_assoc (print_item i) (b'\n' ∷ print is) tail)
    ∙ ap (λ t. read_lines t g) (lines-append (print_item i) (print is ++ tail) l.0)
    ∙ ap (λ o. o >>= λ g'. read_lines (lines (print is ++ tail)) g') (read_item i g h.0)
    ∙ read_lines-print is tail (setting i g) h.1 l.1
    ∙ ap (read_lines (lines tail)) (settings-cons i is g)

-- Let the file be a list of items, each on a line of its own: empty lines, remarks behind a semicolon,
-- and entries whose key has no equals sign and no semicolon, whose value has no semicolon and no
-- blank at its end, with blanks and a comment after them. Then reading it ends normally, and the
-- configuration is the one that the entries set, in order.
pub read_config_file-print :
    (is : List Item) (g : Config)
    → All IsItem is
    → All OneLine is
    → read_config_file (some (print is)) g ≡ ok (settings is g)
unfolding read_config_file read_lines lines read_line
read_config_file-print is g h l =
    ap (λ t. read_lines (lines t) g) (sym (append-nil (print is))) ∙ read_lines-print is [] g h l

Lacks-take : (c : ℕ) (n : ℕ) (xs : Text) → Lacks c xs → Lacks c (take n xs)
unfolding take
Lacks-take c zero xs h = tt
Lacks-take c (suc n) [] h = tt
Lacks-take c (suc n) (x ∷ xs) h = (h.0, Lacks-take c n xs h.1)

Lacks-trim : (c : ℕ) (xs : Text) → Lacks c xs → Lacks c (trim xs)
unfolding trim
Lacks-trim c xs h = at (find_last_solid xs)
  where
    at : (o : Option ℕ) → Lacks c (trim_at xs o)
    at none = h
    at (some i) = Lacks-take c (suc i) xs h

read_entry-aborts : (line : Text) (g : Config) → Lacks b'=' line → read_entry line g ≡ aborted
unfolding read_entry
read_entry-aborts line g h = rw (find_first_of-Lacks b'=' (trim line) (Lacks-trim b'=' line h)) refl

read_config_file_aborts_at :
    (is : List Item) (line rest : Text) (g : Config)
    → All IsItem is
    → All OneLine is
    → Lacks b'\n' line
    → read_line line (settings is g) ≡ aborted
    → read_config_file (some (print is ++ (line ++ b'\n' ∷ rest))) g ≡ aborted
unfolding read_config_file read_lines
read_config_file_aborts_at is line rest g h l n fails =
    read_lines-print is (line ++ b'\n' ∷ rest) g h l
    ∙ ap (λ t. read_lines t (settings is g)) (lines-append line rest n)
    ∙ ap (λ o. o >>= λ g'. read_lines (lines rest) g') fails

-- Let items be followed by a line that is not empty and has neither a semicolon nor an equals sign before
-- its comment, if it has one, be it of blanks alone. Then reading the file aborts, whatever comes after.
pub read_config_file-aborts :
    (is : List Item) (a : ℕ) (xs comment rest : Text) (g : Config)
    → All IsItem is
    → All OneLine is
    → Lacks b';' (a ∷ xs)
    → Lacks b'=' (a ∷ xs)
    → IsComment comment
    → Lacks b'\n' ((a ∷ xs) ++ comment)
    → read_config_file (some (print is ++ (((a ∷ xs) ++ comment) ++ b'\n' ∷ rest))) g ≡ aborted
read_config_file-aborts is a xs comment rest g h l s e c n =
    read_config_file_aborts_at is ((a ∷ xs) ++ comment) rest g h l n (
      read_line-uncommented (a ∷ xs) comment (settings is g) (a, xs, refl) s c
      ∙ read_entry-aborts (a ∷ xs) (settings is g) e)
