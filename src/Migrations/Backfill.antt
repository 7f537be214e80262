-- ===== src/Migrations/Backfill.antt =====
-- The third revision of backend/alembic on the rows: which session gets which device, and when the
-- revision gives up.
use mathlib.Core.List.{Mem, mem-cons}
use mathlib.Core.Logic.Or
use ai_badge.Prelude.{
  if◌then◌else◌, Bool-cases, Option-cases, ◌⊕◌, decimal, string_eq, find, find-true, ◌≡◌, refl, inl,
  inr, Bool, true, false, not, ◌||◌, none, some, List, [], ◌∷◌, arith, count_where, All, Option,
}
use ai_badge.Model.Rows.{Device, Session}
use ai_badge.Migrations.DeviceIds.{
  lacks_device, virtual_device, assign, backfill, refers, all_refer,
}

-- What becomes of a session: one with a device stays, another gets the virtual device of its user.
pub data Given (devices : List Device) (s s' : Session) : Type 0 where
  kept : lacks_device s ≡ false → s' ≡ s → Given devices s s'
  gave :
      (d : Device)
      → lacks_device s ≡ true
      → Mem d devices
      → d.user_id ≡ s.user_id
      → d.device_key ≡ "virtual-" ⊕ decimal s.user_id
      → s' ≡ record s { device_id = some d.id }
      → Given devices s s'

-- The sessions, in their order, and what becomes of each.
pub data Filled (devices : List Device) : List Session → List Session → Type 0 where
  none_left : Filled devices [] []
  one_more :
      {s s' : Session} {ss ss' : List Session}
      → Given devices s s'
      → Filled devices ss ss'
      → Filled devices (s ∷ ss) (s' ∷ ss')

-- A session that has a device, or whose user has the virtual one.
abbrev pub is_fillable : List Device → Session → Bool
is_fillable devices s =
    not (lacks_device s) || (elim (virtual_device devices s) [ none ↦ false | some d ↦ true ])

mem_of_find {ℓ} : {A : Type ℓ} (p : A → Bool) (xs : List A) (x : A) → find p xs ≡ some x → Mem x xs
mem_of_find p [] x h = cc
mem_of_find p (y ∷ ys) x h = elim (Bool-cases (p y)) [
  | inl e ↦ mem-cons.1 (Or.inl (ground arith))
  | inr e ↦ mem-cons.1 (Or.inr (mem_of_find p ys x (ground arith)))
]

given :
    (devices : List Device) (s : Session)
    → is_fillable devices s ≡ true
    → Given devices s (if lacks_device s then assign (virtual_device devices s) s else s)
given devices s h = elim (Bool-cases (lacks_device s)) [
  | inl e ↦ elim (Option-cases (virtual_device devices s)) [
    | inl missing ↦ absurd (ground arith)
    | inr (d, found) ↦
        let fits = find-true _ devices d found in
        rw (e, found)
          (gave d e (mem_of_find _ devices d found) (ground arith)
            (ground (arith, string_eq.same_iff d.device_key ("virtual-" ⊕ decimal s.user_id))) refl)
  ]
  | inr e ↦ rw e (kept e refl)
]

pub backfill-Filled :
    (devices : List Device) (sessions : List Session)
    → All (λ s. is_fillable devices s ≡ true) sessions
    → Filled devices sessions (backfill devices sessions)
unfolding backfill
backfill-Filled devices [] h = none_left
backfill-Filled devices (s ∷ ss) h = one_more (given devices s h.0) (backfill-Filled devices ss h.1)

has_device : {devices : List Device} {s s' : Session} → Given devices s s' → lacks_device s' ≡ false
has_device (kept h e) = rw e h
has_device (gave d h m u k e) = rw e refl

pub Filled-all :
    {devices : List Device} {sessions sessions' : List Session}
    → Filled devices sessions sessions'
    → count_where lacks_device sessions' ≡ 0
Filled-all none_left = refl
Filled-all (one_more g r) = rw (has_device g) (omega (arith, Filled-all r))

pub backfill_none :
    (devices : List Device) (sessions : List Session)
    → count_where lacks_device sessions ≡ 0
    → backfill devices sessions ≡ sessions
unfolding backfill
backfill_none devices [] h = refl
backfill_none devices (s ∷ ss) h = ground (arith, backfill_none devices ss)

refers_of_find :
    (p : Device → Bool) (devices : List Device) (d : Device)
    → find p devices ≡ some d
    → refers devices (some d.id) ≡ true
refers_of_find p [] d h = cc
refers_of_find p (x ∷ xs) d h = ground (arith, refers_of_find p xs d)

assign-refers :
    (devices : List Device) (s : Session) (o : Option Device)
    → virtual_device devices s ≡ o
    → refers devices s.device_id ≡ true
    → refers devices (assign o s).device_id ≡ true
assign-refers devices s none e h = h
assign-refers devices s (some d) e h = refers_of_find _ devices d e

pub all_refer-backfill :
    (devices : List Device) (sessions : List Session)
    → all_refer devices sessions ≡ true
    → all_refer devices (backfill devices sessions) ≡ true
unfolding backfill
all_refer-backfill devices [] h = refl
all_refer-backfill devices (s ∷ ss) h =
    ground (
      arith,
      assign-refers devices s (virtual_device devices s) refl,
      all_refer-backfill devices ss,
    )
