-- ===== src/Logger/Logging/SourceFile.antt =====
-- src/logger/Logging.h: `SourceFile` finds the last part of a path.
use a_tiny_network_library.Common.{ℕ, ◌≡◌, refl, true, List, [], ◌∷◌, ◌++◌, none, some, ◌==◌, arith}
use a_tiny_network_library.Common.Text.{Without}
use a_tiny_network_library.Logger.Logging.{strrchr, source_file}

strrchr-none : (c : ℕ) (base : List ℕ) → Without c base → strrchr c base ≡ none
unfolding strrchr
strrchr-none c [] w = refl
strrchr-none c (x ∷ xs) (e, w) = rw (strrchr-none c xs w, e) refl

strrchr-last :
    (c : ℕ) (dir base : List ℕ) → Without c base → strrchr c (dir ++ (c ∷ base)) ≡ some (c ∷ base)
unfolding strrchr
strrchr-last c [] base w =
    let t : (c == c) ≡ true = ground arith in rw (strrchr-none c base w, t) refl
strrchr-last c (x ∷ dir) base w = rw (strrchr-last c dir base w) refl

-- The name of a file is what stands behind the last `/`, and all of it where there is none.
pub source_file-basename :
    (dir base : List ℕ)
    → Without b'/' base
    → (source_file (dir ++ (b'/' ∷ base)) ≡ base) × (source_file base ≡ base)
unfolding source_file
source_file-basename dir base w = (
  rw (source_file, strrchr-last b'/' dir base w) refl,
  rw (source_file, strrchr-none b'/' base w) refl,
)
