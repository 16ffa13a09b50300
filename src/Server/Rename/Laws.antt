-- ===== src/Server/Rename/Laws.antt =====
-- What a rename makes of the list of shared bus ids.
use usbover_ip.Base.{
  String, ◌≡◌, refl, false, not, ◌&&◌, ◌||◌, List, [], ◌∷◌, ◌++◌, arith, ◌==◌, eq_iff, Bool-cases,
  inl, inr,
}
use usbover_ip.Base.Lists.{contains}
use usbover_ip.Server.Rename.{remove_first, append_new, rename_shared}

-- Each bus id stands in the list once.
abbrev pub Distinct : List String → Type 0
Distinct [] = Unit
Distinct (b ∷ bs) = (contains bs b ≡ false) × Distinct bs

contains-remove_first :
    (old b : String) (bs : List String)
    → Distinct bs
    → contains (remove_first old bs) b ≡ (contains bs b && not (b == old))
unfolding contains remove_first
contains-remove_first old b [] d = refl
contains-remove_first old b (c ∷ bs) d = ground (
  arith,
  eq_iff c old,
  eq_iff c b,
  eq_iff b c,
  eq_iff b old,
  d.0,
  contains-remove_first old b bs d.1,
)

Distinct-remove_first :
    (old : String) (bs : List String) → Distinct bs → Distinct (remove_first old bs)
unfolding remove_first
Distinct-remove_first old [] d = tt
Distinct-remove_first old (c ∷ bs) d = elim (Bool-cases (c == old)) [
  | inl same ↦ rw same d.1
  | inr differ ↦
      rw differ
        (rw (contains-remove_first old c bs d.1, d.0) refl, Distinct-remove_first old bs d.1)
]

contains-append :
    (new b : String) (bs : List String)
    → contains (bs ++ (new ∷ [])) b ≡ (contains bs b || b == new)
unfolding contains
contains-append new b [] = ground (arith, eq_iff new b, eq_iff b new)
contains-append new b (c ∷ bs) = ground (arith, contains-append new b bs)

Distinct-append :
    (new : String) (bs : List String)
    → contains bs new ≡ false
    → Distinct bs
    → Distinct (bs ++ (new ∷ []))
unfolding contains
Distinct-append new [] h d = (refl, tt)
Distinct-append new (c ∷ bs) h d = (
  rw contains-append (ground (arith, d.0, eq_iff c new, eq_iff new c)),
  Distinct-append new bs (ground (arith, eq_iff c new)) d.1,
)

contains-append_new :
    (new b : String) (bs : List String)
    → contains (append_new new bs) b ≡ (contains bs b || b == new)
unfolding append_new
contains-append_new new b bs = ground (arith, eq_iff b new, contains-append new b bs)

Distinct-append_new : (new : String) (bs : List String) → Distinct bs → Distinct (append_new new bs)
unfolding append_new
Distinct-append_new new bs d = elim (Bool-cases (contains bs new)) [
  | inl there ↦ rw there d
  | inr free ↦ rw free (Distinct-append new bs free d)
]

-- A rename in a list that has each bus id once leaves such a list, which has the new bus id and all
-- that it had but the old one.
pub rename_shared-Distinct :
    (old new b : String) (bs : List String)
    → Distinct bs
    → Distinct (rename_shared old new bs)
      × (contains (rename_shared old new bs) b ≡ ((contains bs b && not (b == old)) || b == new))
unfolding rename_shared
rename_shared-Distinct old new b bs d = (
  Distinct-append_new new (remove_first old bs) (Distinct-remove_first old bs d),
  rw (contains-append_new, contains-remove_first old b bs d) refl,
)
