-- ===== src/Kalloc/Frames.antt =====
-- Lists of physical pages, and the list in memory that `kmem.freelist` heads.
use os_study.Prelude.{ℕ, ◌≤◌, ◌<◌, ◌%◌, ◌≡◌, ◌≢◌, subst, sym, List, [], ◌∷◌, arith, All, update}
use os_study.Kalloc.{page_size, phys_stop, Words, fill_page}

-- What `kfree` accepts.
pub record IsPage (end pa : ℕ) : Type 0 where
  pub aligned : pa % page_size ≡ 0
  pub above : end ≤ pa
  pub below : pa < phys_stop

abbrev pub Fresh : ℕ → List ℕ → Type 0
Fresh p ps = All (λ q. p ≢ q) ps

abbrev pub Distinct : List ℕ → Type 0
Distinct [] = Unit
Distinct (p ∷ ps) = Fresh p ps × Distinct ps

-- From `p` on the first words of the pages `ps` link them, in order, to the null pointer.
abbrev pub Chain : Words → ℕ → List ℕ → Type 0
Chain w p [] = p ≡ 0
Chain w p (x ∷ xs) = (p ≡ x) × Chain w (w x) xs

pub Chain-frame :
    (w w' : Words) (p : ℕ) (ps : List ℕ) → All (λ q. w' q ≡ w q) ps → Chain w p ps → Chain w' p ps
Chain-frame w w' p [] same h = h
Chain-frame w w' p (x ∷ xs) same h =
    (h.0, subst (λ q. Chain w' q xs) (sym same.0) (Chain-frame w w' (w x) xs same.1 h.1))

-- Filling page `pa` leaves the first words of other pages alone.
pub fill_page-Fresh :
    (end : ℕ) (w : Words) (pa c : ℕ) (ps : List ℕ)
    → IsPage end pa
    → Fresh pa ps
    → All (IsPage end) ps
    → All (λ q. fill_page w pa c q ≡ w q) ps
fill_page-Fresh end w pa c [] page new pages = tt
fill_page-Fresh end w pa c (x ∷ xs) page new pages =
    (head new.0 pages.0, fill_page-Fresh end w pa c xs page new.1 pages.1)
  where
    head : pa ≢ x → IsPage end x → fill_page w pa c x ≡ w x
    head ne px = ground arith

-- So does `kfree` of page `pa`, which also links the page to the head `v` of the list.
pub freed-Fresh :
    (end : ℕ) (w : Words) (pa v : ℕ) (ps : List ℕ)
    → IsPage end pa
    → Fresh pa ps
    → All (IsPage end) ps
    → All (λ q. update (fill_page w pa 1) pa v q ≡ w q) ps
freed-Fresh end w pa v [] page new pages = tt
freed-Fresh end w pa v (x ∷ xs) page new pages =
    (head new.0 pages.0, freed-Fresh end w pa v xs page new.1 pages.1)
  where
    head : pa ≢ x → IsPage end x → update (fill_page w pa 1) pa v x ≡ w x
    head ne px = ground arith
