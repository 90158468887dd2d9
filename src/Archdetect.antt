-- ===== src/Archdetect.antt =====
-- archdetect/archdetect.c: what the command-line tool prints, and where it gives up. `memdescs`,
-- `tlbdescs` and the text are lists; the text printed on stdout has its newest piece first.
pub mod Units
pub mod Details
pub mod Complete
pub mod Sets
mod Tests
use Prim.Native.String.{String}
use libtorque.Base.{
  ℕ, zero, suc, ◌^◌, ◌/◌, ◌%◌, ◌*◌, Bool, true, false, ◌&&◌, ◌||◌, not, List, [], ◌∷◌, Option, none,
  some, ltb, leb, ◌==◌, if◌then◌else◌, Run, ok, err, ◌>>=◌,
}

-- The letters of `units`.
pub data BinaryUnit : Type 0 where
  kilo mega giga tera peta exa zetta yotta : BinaryUnit

abbrev pub units_after_kilo : List BinaryUnit
units_after_kilo = mega ∷ giga ∷ tera ∷ peta ∷ exa ∷ zetta ∷ yotta ∷ []

-- A printf of print_cpuset: "\t", "%s %u: ", "%3u ", "(%ux processor type %u)\n" and
-- "(%u threads total)\n".
pub data Row : Type 0 where
  tab : Row
  heading : String → ℕ → Row
  cpu : ℕ → Row
  processors : ℕ → ℕ → Row
  threads_total : ℕ → Row

-- A piece of the output: a number with a suffix, the same in a unit, or a fraction of a unit, by the
-- float that is divided by 1024 and whose digits the C library prints; and what is printed beside
-- numbers.
pub data Text : Type 0 where
  plain : ℕ → String → Text
  scaled : ℕ → BinaryUnit → String → Text
  about : ℕ → BinaryUnit → String → Text
  words : String → Text
  number : ℕ → Text
  bytes : List ℕ → Text
  row : Row → Text

-- `fprintf`, where its result is tested.
unfoldable pub fprintf : (Text → Bool) → Text → List Text → Run (List Text)
fprintf writes t out = if writes t then ok (t ∷ out) else err out

-- The first loop of fprintf_bunit, with the letter at `unit` and those after it.
unfoldable pub scale : ℕ → BinaryUnit → List BinaryUnit → Option (ℕ × BinaryUnit × List BinaryUnit)
scale val unit [] = if leb 1024 val && (val % 1024 == 0) then none else some (val, unit, [])
scale val unit (next ∷ units) =
    let later = scale (val / 1024) next units in
    if leb 1024 val && (val % 1024 == 0) then later else some (val, unit, next ∷ units)

-- The second loop, with the letters after `unit`; there is no result where they run out.
unfoldable pub nearest : ℕ → List BinaryUnit → Option (ℕ × BinaryUnit)
nearest val [] = none
nearest val (unit ∷ units) =
    let later = nearest (val / 1024) units in
    if leb 1000 (val / 1024) && not (val % 1024 == 0) then later else some (val, unit)

-- `(float)val` of a uintmax_t: 24 significant bits, rounded to the nearest, to the even one of two. 40
-- halvings bring 64 bits below 2 ^ 24.
unfoldable pub float_exponent : ℕ → ℕ → ℕ
float_exponent zero val = 0
float_exponent (suc halvings) val =
    let later = float_exponent halvings (val / 2) in if ltb val (2 ^ 24) then 0 else suc later

unfoldable pub round_to : ℕ → ℕ → ℕ
round_to unit val =
    let q = val / unit in
    let r = val % unit in
    if ltb unit (2 * r) || ((2 * r == unit) && (q % 2 == 1)) then suc q * unit else q * unit

unfoldable pub to_float : ℕ → ℕ
to_float val = round_to (2 ^ float_exponent 40 val) val

unfoldable pub fprintf_about :
    (Text → Bool) → String → Option (ℕ × BinaryUnit) → List Text → Run (List Text)
fprintf_about writes suffix none out = ok out
fprintf_about writes suffix (some (val, unit)) out =
    fprintf writes (about (to_float val) unit suffix) out

-- What follows the exact number, from the test of `val >= SCALE && (val % SCALE)` on.
unfoldable pub fprintf_fraction :
    (Text → Bool) → String → ℕ → List BinaryUnit → List Text → Run (List Text)
fprintf_fraction writes suffix val units out =
    if leb 1024 val && not (val % 1024 == 0)
    then fprintf_about writes suffix (nearest val units) out
    else ok out

unfoldable pub fprintf_scaled :
    (Text → Bool) → String → Option (ℕ × BinaryUnit × List BinaryUnit) → List Text → Run (List Text)
fprintf_scaled writes suffix none out = err out
fprintf_scaled writes suffix (some (val, unit, units)) out =
    fprintf writes (scaled val unit suffix) out >>= fprintf_fraction writes suffix val units

unfoldable pub fprintf_bunit : (Text → Bool) → String → ℕ → List Text → Run (List Text)
fprintf_bunit writes suffix val out =
    if ltb val 1024 || not (val % 1024 == 0)
    then fprintf writes (plain val suffix) out
    else fprintf_scaled writes suffix (scale (val / 1024) kilo units_after_kilo) out
