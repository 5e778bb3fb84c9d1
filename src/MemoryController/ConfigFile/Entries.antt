-- ===== src/MemoryController/ConfigFile/Entries.antt =====
-- Reading back what a configuration file is written as: entries with blanks and a comment after them,
-- remarks and empty lines.
use mcsim.Common.{
  ℕ, suc, ◌≡◌, refl, sym, ap, ◌∙◌, subst, true, false, none, some, [], ◌∷◌, ◌++◌, append_assoc,
  append-nil, length, All, All-append, ◌==◌, ok, arith,
}
use mcsim.MemoryController.ConfigFile.{
  Text, find_first_of, take, drop, is_blank, or_here, find_last_solid, trim_at, trim, Config,
  set_key, read_entry, read_line,
}

-- The character is not in the text.
abbrev pub Lacks : ℕ → Text → Type 0
Lacks c = All (λ a. (a == c) ≡ false)

-- The last character, if there is one, is no blank.
abbrev pub IsTrimmed : Text → Type 0
IsTrimmed [] = Unit
IsTrimmed (a ∷ []) = is_blank a ≡ false
IsTrimmed (a ∷ b ∷ as') = IsTrimmed (b ∷ as')

abbrev pub IsBlank : Text → Type 0
IsBlank = All (λ a. is_blank a ≡ true)

-- A comment that may be missing.
abbrev pub IsComment : Text → Type 0
IsComment [] = Unit
IsComment (a ∷ as') = a ≡ b';'

find_first_of-append :
    (c : ℕ) (xs ys : Text) → Lacks c xs → find_first_of c (xs ++ c ∷ ys) ≡ some (length xs)
unfolding find_first_of
find_first_of-append c [] ys h = ground arith
find_first_of-append c (x ∷ xs) ys h = rw h.0 (rw (find_first_of-append c xs ys h.1) refl)

pub find_first_of-Lacks : (c : ℕ) (xs : Text) → Lacks c xs → find_first_of c xs ≡ none
unfolding find_first_of
find_first_of-Lacks c [] h = refl
find_first_of-Lacks c (x ∷ xs) h = rw h.0 (rw (find_first_of-Lacks c xs h.1) refl)

take-length : (xs ys : Text) → take (length xs) (xs ++ ys) ≡ xs
unfolding take
take-length [] ys = refl
take-length (x ∷ xs) ys = ap (λ l. x ∷ l) (take-length xs ys)

drop-length : (xs : Text) (c : ℕ) (ys : Text) → drop (suc (length xs)) (xs ++ c ∷ ys) ≡ ys
unfolding drop
drop-length [] c ys = refl
drop-length (x ∷ xs) c ys = drop-length xs c ys

find_last_solid-blank : (s : Text) → IsBlank s → find_last_solid s ≡ none
unfolding find_last_solid
find_last_solid-blank [] h = refl
find_last_solid-blank (a ∷ s) h = rw (find_last_solid-blank s h.1) (rw h.0 refl)

find_last_solid-append :
    (a : ℕ) (xs s : Text)
    → IsTrimmed (a ∷ xs)
    → IsBlank s
    → find_last_solid (a ∷ xs ++ s) ≡ some (length xs)
unfolding find_last_solid
find_last_solid-append a [] s h b = rw (find_last_solid-blank s b) (rw h refl)
find_last_solid-append a (x ∷ xs) s h b = ap (or_here a) (find_last_solid-append x xs s h b)

trim-append : (a : ℕ) (xs s : Text) → IsTrimmed (a ∷ xs) → IsBlank s → trim (a ∷ xs ++ s) ≡ a ∷ xs
unfolding trim
trim-append a xs s h b =
    ap (trim_at (a ∷ xs ++ s)) (find_last_solid-append a xs s h b) ∙ take-length (a ∷ xs) s

-- An entry, as it can be written.
pub record Entry : Type 0 where
  pub key : Text
  pub value : Text
  pub blanks : Text
  pub comment : Text

abbrev pub print_entry : Entry → Text
print_entry e = (e.key ++ b'=' ∷ e.value) ++ (e.blanks ++ e.comment)

pub record IsEntry (e : Entry) : Type 0 where
  pub key_equals : Lacks b'=' e.key
  pub key_comment : Lacks b';' e.key
  pub value_comment : Lacks b';' e.value
  pub value_trimmed : IsTrimmed (b'=' ∷ e.value)
  pub is_blank : IsBlank e.blanks
  pub is_comment : IsComment e.comment

IsTrimmed-append : (xs : Text) (c : ℕ) (ys : Text) → IsTrimmed (c ∷ ys) → IsTrimmed (xs ++ c ∷ ys)
IsTrimmed-append [] c ys h = h
IsTrimmed-append (x ∷ []) c ys h = h
IsTrimmed-append (x ∷ y ∷ xs) c ys h = IsTrimmed-append (y ∷ xs) c ys h

blank-Lacks : (s : Text) → IsBlank s → Lacks b';' s
blank-Lacks [] h = tt
blank-Lacks (a ∷ s) h = (ground (arith, h.0), blank-Lacks s h.1)

trim-body :
    (k v s : Text) → IsTrimmed (b'=' ∷ v) → IsBlank s → trim ((k ++ b'=' ∷ v) ++ s) ≡ k ++ b'=' ∷ v
trim-body [] v s h b = trim-append b'=' v s h b
trim-body (a ∷ k) v s h b = trim-append a (k ++ b'=' ∷ v) s (IsTrimmed-append (a ∷ k) b'=' v h) b

read_entry-body :
    (k v s : Text) (g : Config)
    → Lacks b'=' k
    → IsTrimmed (b'=' ∷ v)
    → IsBlank s
    → read_entry ((k ++ b'=' ∷ v) ++ s) g ≡ ok (set_key k v g)
unfolding read_entry
read_entry-body k v s g e h b = rw (trim-body k v s h b) (
    rw (find_first_of-append b'=' k v e)
      (rw (take-length k (b'=' ∷ v)) (rw (drop-length k b'=' v) refl)))

-- Up to its comment, a line that does not begin with one.
uncommented :
    (a : ℕ) (xs c : Text) (g : Config)
    → Lacks b';' (a ∷ xs)
    → IsComment c
    → read_line (a ∷ xs ++ c) g ≡ read_entry (a ∷ xs) g
unfolding read_line
uncommented a xs [] g l h =
    let none_at : find_first_of b';' (a ∷ xs ++ []) ≡ none =
      ap (λ t. find_first_of b';' (a ∷ t)) (append-nil xs) ∙ find_first_of-Lacks b';' (a ∷ xs) l in
    rw none_at (ap (λ t. read_entry (a ∷ t) g) (append-nil xs))
uncommented a xs (x ∷ c) g l h =
    let at_comment : find_first_of b';' (a ∷ xs ++ x ∷ c) ≡ some (suc (length xs)) =
      ap (λ y. find_first_of b';' (a ∷ xs ++ y ∷ c)) h ∙ find_first_of-append b';' (a ∷ xs) c l in
    rw at_comment (ap (λ t. read_entry t g) (take-length (a ∷ xs) (x ∷ c)))

-- A line of at least one character, with `a` for the first one where it is known.
pub read_line-uncommented :
    (line c : Text) (g : Config)
    → (a : ℕ) × (xs : Text) × (line ≡ a ∷ xs)
    → Lacks b';' line
    → IsComment c
    → read_line (line ++ c) g ≡ read_entry line g
read_line-uncommented line c g (a, xs, e) l h =
    ap (λ t. read_line (t ++ c) g) e
    ∙ uncommented a xs c g (subst (Lacks b';') e l) h
    ∙ ap (λ t. read_entry t g) (sym e)

entry_begins : (k v s : Text) → (a : ℕ) × (xs : Text) × ((k ++ b'=' ∷ v) ++ s ≡ a ∷ xs)
entry_begins [] v s = (b'=', v ++ s, refl)
entry_begins (a ∷ k) v s = (a, (k ++ b'=' ∷ v) ++ s, refl)

-- The line of an entry sets its key to its value: the blanks and the comment after it do not matter.
pub read_line-print_entry :
    (e : Entry) (g : Config)
    → IsEntry e
    → read_line (print_entry e) g ≡ ok (set_key e.key e.value g)
read_line-print_entry e g w =
    let body = (e.key ++ b'=' ∷ e.value) ++ e.blanks in
    let clean : Lacks b';' body =
      All-append _ (e.key ++ b'=' ∷ e.value) e.blanks
        (All-append _ e.key (b'=' ∷ e.value) w.key_comment (refl, w.value_comment))
        (blank-Lacks e.blanks w.is_blank) in
    ap (λ t. read_line t g) (sym (append_assoc (e.key ++ b'=' ∷ e.value) e.blanks e.comment))
    ∙ read_line-uncommented body e.comment g (entry_begins e.key e.value e.blanks) clean
        w.is_comment
    ∙ read_entry-body e.key e.value e.blanks g w.key_equals w.value_trimmed w.is_blank
