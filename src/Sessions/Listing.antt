-- ===== src/Sessions/Listing.antt =====
-- GET /sessions of backend/app/sessions/router.py: which sessions a page shows, and in which order.
use ai_badge.Prelude.{
  ◌==◌, nat_eq, string_eq, length, take, drop, All, order_by, length-order_by, All-order_by,
  IsOrdered, order_by-IsOrdered, IsWeakOrder, All-select, ℕ, zero, suc, ◌-◌, min, ◌≡◌, refl, Bool,
  true, false, List, [], ◌∷◌, map, arith,
}
use ai_badge.Model.{
  session_status_eq, job_status_eq, artifact_status_eq, opt_eq, key_eq, Session, ◌>>=◌, World, ok,
}
use ai_badge.Sessions.Schemas.{to_response}
use ai_badge.Sessions.Router.{newer, own_sessions, list_sessions}

recency : IsWeakOrder newer
recency = record { asym = λ a b h. ground arith; trans = λ a b c h k. ground arith }

module _ {A : Type 0} (P : A → Type 0) where
  All-take : (n : ℕ) (xs : List A) → All P xs → All P (take n xs)
  All-take zero xs h = tt
  All-take (suc n) [] h = tt
  All-take (suc n) (x ∷ xs) h = (h.0, All-take n xs h.1)

  All-drop : (n : ℕ) (xs : List A) → All P xs → All P (drop n xs)
  All-drop zero xs h = h
  All-drop (suc n) [] h = tt
  All-drop (suc n) (x ∷ xs) h = All-drop n xs h.1

module _ {A : Type 0} (before : A → A → Bool) where
  IsOrdered-take : (n : ℕ) (xs : List A) → IsOrdered before xs → IsOrdered before (take n xs)
  IsOrdered-take zero xs h = tt
  IsOrdered-take (suc n) [] h = tt
  IsOrdered-take (suc n) (x ∷ xs) h =
      (All-take (λ y. before y x ≡ false) n xs h.0, IsOrdered-take n xs h.1)

  IsOrdered-drop : (n : ℕ) (xs : List A) → IsOrdered before xs → IsOrdered before (drop n xs)
  IsOrdered-drop zero xs h = h
  IsOrdered-drop (suc n) [] h = tt
  IsOrdered-drop (suc n) (x ∷ xs) h = IsOrdered-drop n xs h.1

length-take : {A : Type 0} (n : ℕ) (xs : List A) → length (take n xs) ≡ min n (length xs)
length-take zero xs = omega arith
length-take (suc n) [] = omega arith
length-take (suc n) (x ∷ xs) = let h = length-take n xs in omega arith

length-drop : {A : Type 0} (n : ℕ) (xs : List A) → length (drop n xs) ≡ length xs - n
length-drop zero xs = omega arith
length-drop (suc n) [] = omega arith
length-drop (suc n) (x ∷ xs) = let h = length-drop n xs in omega arith

-- A page of the list shows `rows`, sessions of the user alone, the most recently created first;
-- there are as many as the limit allows and the offset leaves, and the total counts all sessions of
-- the user. Reading changes nothing.
pub list_sessions-page :
    (uid limit offset : ℕ) (w : World)
    → (rows : List Session) × (list_sessions uid limit offset w
        ≡ (ok (record { sessions = map to_response rows; total = length (own_sessions uid w) }), w))
      × All (λ s. (s.user_id == uid) ≡ true) rows
      × IsOrdered newer rows
      × (length rows ≡ min limit (length (own_sessions uid w) - offset))
unfolding list_sessions ◌>>=◌
list_sessions-page uid limit offset w =
    let own = own_sessions uid w in
    let sorted = order_by newer own in
    (
      take limit (drop offset sorted),
      refl,
      All-take (λ s. (s.user_id == uid) ≡ true) limit (drop offset sorted)
          (All-drop (λ s. (s.user_id == uid) ≡ true) offset sorted
            (All-order_by newer (λ s. (s.user_id == uid) ≡ true) own
              (All-select (λ s. s.user_id == uid) w.sessions))),
      IsOrdered-take newer limit (drop offset sorted)
          (IsOrdered-drop newer offset sorted (order_by-IsOrdered newer recency own)),
      ground (
        arith,
        length-take limit (drop offset sorted),
        length-drop offset sorted,
        length-order_by newer own,
      ),
    )
