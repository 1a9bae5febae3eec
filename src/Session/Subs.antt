-- ===== src/Session/Subs.antt =====
-- Lemmas on the subscriber map and on its channels.
use headless_terminal.Base.{
  ℕ, ◌≡◌, refl, true, false, some, List, [], ◌∷◌, ◌==◌, if◌then◌else◌, update, arith,
}
use headless_terminal.Session.Chan.{Channel, Channels, close, close_at, close_all}
use headless_terminal.Session.{has_sub, delete_sub}

abbrev pub Distinct : List ℕ → Type 0
Distinct [] = Unit {0}
Distinct (i ∷ is) = (has_sub i is ≡ false) × Distinct is

pub has_sub-delete_sub :
    (i id : ℕ) (l : List ℕ)
    → Distinct l
    → has_sub i (delete_sub id l) ≡ (if i == id then false else has_sub i l)
unfolding has_sub delete_sub
has_sub-delete_sub i id [] d = ground arith
has_sub-delete_sub i id (x ∷ l) d = ground (arith, has_sub-delete_sub i id l)

pub delete_sub-Distinct : (id : ℕ) (l : List ℕ) → Distinct l → Distinct (delete_sub id l)
unfolding delete_sub has_sub
delete_sub-Distinct id [] d = tt
delete_sub-Distinct id (x ∷ l) d =
    ground (arith, delete_sub-Distinct id l d.1, has_sub-delete_sub x id l d.1)

-- Every channel of the list is open.
abbrev pub AllOpen : List ℕ → Channels → Type 0
AllOpen l chans = (i : ℕ) → has_sub i l ≡ true → (chans i).closed ≡ false

abbrev pub shut : Channel → Channel
shut ch = record ch { closed = true }

pub close_at_lem :
    (id : ℕ) (chans : Channels)
    → (chans id).closed ≡ false
    → close_at id chans ≡ some (update chans id (shut (chans id)))
unfolding close_at close
close_at_lem id chans h = ground arith

has_sub_self : (x : ℕ) (l : List ℕ) → has_sub x (x ∷ l) ≡ true
unfolding has_sub
has_sub_self x l = ground arith

open_after :
    (x : ℕ) (l : List ℕ) (chans : Channels) (i : ℕ)
    → has_sub x l ≡ false
    → has_sub i l ≡ true
    → (has_sub i (x ∷ l) ≡ true → (chans i).closed ≡ false)
    → (update chans x (shut (chans x)) i).closed ≡ false
unfolding has_sub update
open_after x l chans i d h o = ground arith

close_all_cell :
    (x : ℕ) (l : List ℕ) (chans : Channels) (after : Channel) (i : ℕ)
    → has_sub x l ≡ false
    → after ≡ (
        if has_sub i l
        then shut (update chans x (shut (chans x)) i)
        else update chans x (shut (chans x)) i)
    → after ≡ (if has_sub i (x ∷ l) then shut (chans i) else chans i)
unfolding has_sub update
close_all_cell x l chans after i d h = ground arith

-- Distinct open channels are closed with no panic, and the others stay as they are.
pub close_all_lem :
    (l : List ℕ) (chans : Channels)
    → Distinct l
    → AllOpen l chans
    → (after : Channels) × (close_all l chans ≡ some after)
      × ((i : ℕ) → after i ≡ (if has_sub i l then shut (chans i) else chans i))
unfolding close_all has_sub
close_all_lem [] chans d o = (chans, refl, λ i. refl)
close_all_lem (x ∷ l) chans d o =
    let first = update chans x (shut (chans x)) in
    let open_rest = λ (i : ℕ) (h : has_sub i l ≡ true). open_after x l chans i d.0 h (o i) in
    let (after, e, all) = close_all_lem l first d.1 (open_rest) in
    (
      after,
      rw (close_at_lem x chans (o x (has_sub_self x l)), close_all) e,
      λ i. close_all_cell x l chans (after i) i d.0 (all i),
    )
