-- ===== src/Migrate/Create/Ordered.antt =====
-- cmd/migrate/main.go: a new migration runs after the older ones.
use mathlib.Core.List.{append_assoc}
use golang_base.Base.{
  ℕ, ◌+◌, ◌-◌, ◌*◌, ◌/◌, ◌%◌, ◌≤◌, ◌<◌, true, false, some, List, [], ◌∷◌, ◌++◌, Text, codes, pos,
  text_le, ◌≡◌, ap, ◌∙◌, arith,
}
use golang_base.Base.Decimal.{is_digit, digits, format_03d}
use golang_base.Base.Decimal.RoundTrip.{three_digits, scan_number}
use golang_base.Base.Paths.{is_abs, join_slash}
use golang_base.Base.Paths.Parts.{has_byte}
use golang_base.Base.Space.{trim_space}
use golang_base.Domain.Errors.{ok}
use golang_base.Migrate.{Entry}
use golang_base.Migrate.Create.{
  Disk, get_migrations_dir, before_byte, is_up_file, sequence_of, max_sequence, numbered_after,
  normalized, create_migration_file,
}
use golang_base.Migrate.Create.Placed.{write_inside}
use golang_base.Migrate.Create.Fresh.{create_migration_file-number}

-- A name that begins with three digits and an underscore.
pub record IsNumbered (name : Text) : Type 0 where
  pub a : ℕ
  pub b : ℕ
  pub c : ℕ
  pub rest : Text
  pub splits : name ≡ a ∷ b ∷ c ∷ b'_' ∷ rest
  pub digit_a : is_digit a ≡ true
  pub digit_b : is_digit b ≡ true
  pub digit_c : is_digit c ≡ true

abbrev number_of : {name : Text} → IsNumbered name → ℕ
number_of h = (h.a - b'0') * 100 + (h.b - b'0') * 10 + (h.c - b'0')

sequence_of-IsNumbered :
    (name : Text) (h : IsNumbered name) → sequence_of name ≡ some (pos (number_of h))
unfolding sequence_of before_byte
sequence_of-IsNumbered name h =
    ap sequence_of h.splits
    ∙ ground (
      arith,
      h.digit_a,
      h.digit_b,
      h.digit_c,
      scan_number (h.a ∷ h.b ∷ h.c ∷ []) (number_of h) (h.digit_a, (h.digit_b, (h.digit_c, tt)))
          (omega arith) (unfold digits in ground (arith, h.digit_a, h.digit_b, h.digit_c))
          (ground (arith, h.digit_a, h.digit_b, h.digit_c)),
    )

-- A smaller number of three digits stands first.
numbered-text_le :
    (name rest : Text) (h : IsNumbered name) (n : ℕ)
    → number_of h < n
    → n ≤ 999
    → text_le name (format_03d (pos n) ++ rest) ≡ true
unfolding text_le
numbered-text_le name rest h n smaller few = rw (three_digits n few) (
    ap (λ t. text_le t ((b'0' + n / 100) ∷ (b'0' + n / 10 % 10) ∷ (b'0' + n % 10) ∷ rest)) h.splits
    ∙ ground (arith, h.digit_a, h.digit_b, h.digit_c, smaller, few))

text_le-numbered :
    (name rest : Text) (h : IsNumbered name) (n : ℕ)
    → number_of h < n
    → n ≤ 999
    → text_le (format_03d (pos n) ++ rest) name ≡ false
unfolding text_le
text_le-numbered name rest h n smaller few = rw (three_digits n few) (
    ap (text_le ((b'0' + n / 100) ∷ (b'0' + n / 10 % 10) ∷ (b'0' + n % 10) ∷ rest)) h.splits
    ∙ ground (arith, h.digit_a, h.digit_b, h.digit_c, smaller, few))

module _ {F : Type 0} (disk : Disk F) (lower : Text → Text) (now dir name : Text) (c : ℕ)
    (cs cwd : Text) (f : F) (before after : List Entry) (entry : Entry)
    (given : trim_space name ≡ c ∷ cs) (at : disk.getwd f ≡ ok cwd) (rooted : is_abs cwd ≡ true)
    (found : get_migrations_dir disk f ≡ ok dir) (made : (disk.mkdir_all dir f).0 ≡ ok tt)
    (listed : disk.read_dir dir (disk.mkdir_all dir f).1 ≡ ok (before ++ entry ∷ after))
    (plain : has_byte b'/' (normalized lower name) ≡ false)
    (unnumbered : numbered_after 0 (normalized lower name) ≡ false)
    (few : max_sequence 0 (before ++ entry ∷ after) < 999) (is_file : entry.is_dir ≡ false)
    (is_up : is_up_file entry.name ≡ true) (numbered : IsNumbered entry.name) where
  -- If a migration is created under a name that is not blank and, once normalized, has no slash and
  -- no number of its own, in an absolute working directory, and the migrations directory is found,
  -- made and listed and its highest number is below 999: the command writes two files of one name
  -- directly in the migrations directory, and every upward file there whose name begins with three
  -- digits and an underscore stands strictly before the new one, in the byte order in which
  -- migrations run.
  pub create_migration_file-text_le :
      (bs : List Text) × (up : Text) × (down : Text) × (file : Text) × (dir ≡ b'/' ∷ join_slash bs)
      × (create_migration_file disk lower now name f
          ≡ write_inside disk bs file up down (disk.mkdir_all dir f).1)
      × (text_le entry.name (file ++ codes ".up.sql") ≡ true)
      × (text_le (file ++ codes ".up.sql") entry.name ≡ false)
  create_migration_file-text_le =
      let next = max_sequence 0 (before ++ entry ∷ after) + 1 in
      let rest = b'_' ∷ normalized lower name in
      let (bs, up, down, same_dir, written, below) =
        create_migration_file-number disk lower now dir name c cs cwd f before after entry given at
          rooted found made listed plain unnumbered (omega arith) is_file in
      let smaller : number_of numbered < next = omega (
        arith,
        below (number_of numbered) is_file is_up (sequence_of-IsNumbered entry.name numbered),
      ) in
      (
        bs,
        up,
        down,
        format_03d (pos next) ++ rest,
        same_dir,
        written,
        ap (text_le entry.name) (append_assoc (format_03d (pos next)) rest (codes ".up.sql"))
            ∙ numbered-text_le entry.name (rest ++ codes ".up.sql") numbered next smaller
                (omega arith),
        ap (λ t. text_le t entry.name) (append_assoc (format_03d (pos next)) rest (codes ".up.sql"))
            ∙ text_le-numbered entry.name (rest ++ codes ".up.sql") numbered next smaller
                (omega arith),
      )
