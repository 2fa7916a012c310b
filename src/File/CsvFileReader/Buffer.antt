-- ===== src/File/CsvFileReader/Buffer.antt =====
-- What `nextValue` writes to its buffer: a byte behind the others, and the '\0' over a '\r'.
use premir_cpp.Common.{
  ℕ, suc, ◌<◌, ◌≡◌, refl, ap, List, [], ◌∷◌, ◌++◌, map, some, arith, length, length-append,
  length-map, lt→ltb,
}
use premir_cpp.Common.Run.{ok, Returns, returns}
use premir_cpp.Utils.Memory.{Block, length-Begins}
use premir_cpp.Utils.Memory.Writes.{Holds, set-Holds}
use premir_cpp.File.CsvFileReader.{put_char, remove_cr}
use premir_cpp.File.CsvFileReader.Scan.{chomp}

pub put_char-Holds :
    {n : ℕ} {cs : List ℕ} {buffer : Block ℕ} (c : ℕ)
    → Holds n cs buffer
    → length cs < n
    → Returns (Holds n (cs ++ c ∷ [])) (put_char buffer (length cs) c)
unfolding put_char
put_char-Holds {n} {cs} {buffer} c h fits =
    rw (lt→ltb (length cs) (length buffer) (omega (arith, h.cells)))
      (returns (set-Holds cs c h fits))

remove_cr-cons :
    (x : _) (block : Block ℕ) (i : ℕ) (b : Block ℕ)
    → remove_cr block (suc i) ≡ ok b
    → remove_cr (x ∷ block) (suc (suc i)) ≡ ok (x ∷ b)
unfolding remove_cr put_char
remove_cr-cons x block i b e = ground arith

remove_cr-chomp :
    (cs : List ℕ) (spare : Block ℕ)
    → remove_cr (map some cs ++ spare) (length cs) ≡ ok (map some (chomp cs) ++ spare)
unfolding remove_cr put_char
remove_cr-chomp [] spare = refl
remove_cr-chomp (c ∷ []) spare = ground arith
remove_cr-chomp (c ∷ d ∷ cs) spare =
    remove_cr-cons (some c) (map some (d ∷ cs) ++ spare) (length cs) _
      (remove_cr-chomp (d ∷ cs) spare)

pub length-chomp : (cs : List ℕ) → length (chomp cs) ≡ length cs
length-chomp [] = refl
length-chomp (c ∷ []) = refl
length-chomp (c ∷ d ∷ cs) = ap suc (length-chomp (d ∷ cs))

pub remove_cr-Holds :
    {n : ℕ} {cs : List ℕ} {buffer : Block ℕ}
    → Holds n cs buffer
    → Returns (Holds n (chomp cs)) (remove_cr buffer (length cs))
remove_cr-Holds {n} {cs} {buffer} h =
    rw (h.begins.split, remove_cr-chomp cs h.begins.spare)
      (returns (record {
        begins = record { spare = h.begins.spare; split = refl };
        cells = omega (
          arith,
          length-append (map some (chomp cs)) h.begins.spare,
          length-map (chomp cs) (λ c. some c),
          length-chomp cs,
          length-Begins h.begins,
          h.cells,
        );
      }))
