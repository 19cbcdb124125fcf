-- ===== src/Task/Sessions/Latest.antt =====
-- Which session a Task is given (internal/controller/opencode_client.go).

use kubeopencode.Prelude.{
  ◌⊎◌, ◌≡◌, refl, inl, inr, String, Bool, true, false, ◌&&◌, Option, none, some, List, [], ◌∷◌,
  if◌then◌else◌, count_by, arith,
}
use kubeopencode.Prelude.Int.{ltb_ℤ}
use kubeopencode.Prelude.Text.{str_eq}
use kubeopencode.Client.{Session}
use kubeopencode.Task.Sessions.{latest_titled}

abbrev pub is_titled : String → Session → Bool
is_titled title s = str_eq s.title title

abbrev pub is_later : String → Session → Session → Bool
is_later title s x = is_titled title x && ltb_ℤ s.created x.created

abbrev pub IsAmong : Session → List Session → Type 0
IsAmong s [] = ⊥
IsAmong s (x ∷ xs) = (x ≡ s) ⊎ IsAmong s xs

-- `o` is one of the sessions with the title, and none of them was created later; or there is none.
abbrev pub IsLatestTitled : String → List Session → Option Session → Type 0
IsLatestTitled title ss none = count_by (is_titled title) ss ≡ 0
IsLatestTitled title ss (some s) =
    IsAmong s ss × (is_titled title s ≡ true) × (count_by (is_later title s) ss ≡ 0)

-- What the loop does from a session that it holds already.
abbrev Improves : String → Session → List Session → Option Session → Type 0
Improves title a ss none = ⊥
Improves title a ss (some s) =
    ((a ≡ s) ⊎ IsAmong s ss)
    × (is_titled title s ≡ true)
    × (count_by (is_later title s) ss ≡ 0)
    × (ltb_ℤ s.created a.created ≡ false)

Improves-kept :
    (title : String) (a x : Session) (xs : List Session) (o : Option Session)
    → is_later title a x ≡ false
    → Improves title a xs o
    → Improves title a (x ∷ xs) o
Improves-kept title a x xs none e h = elim h [ ]
Improves-kept title a x xs (some s) e (among, titled, none_later, higher) =
    (elim among [ inl k ↦ inl k | inr k ↦ inr (inr k) ], titled, ground arith, higher)

Improves-taken :
    (title : String) (a x : Session) (xs : List Session) (o : Option Session)
    → ltb_ℤ a.created x.created ≡ true
    → Improves title x xs o
    → Improves title a (x ∷ xs) o
Improves-taken title a x xs none e h = elim h [ ]
Improves-taken title a x xs (some s) e (among, titled, none_later, higher) =
    (inr among, titled, ground arith, ground arith)

choose_later :
    (title : String) (a x : Session) (xs : List Session) (b l : Bool)
    → is_titled title x ≡ b
    → ltb_ℤ a.created x.created ≡ l
    → (is_titled title x ≡ true → Improves title x xs (latest_titled title (some x) xs))
    → Improves title a xs (latest_titled title (some a) xs)
    → Improves title a
        (x ∷ xs)
        (latest_titled title (if b then (if l then some x else some a) else some a) xs)
choose_later title a x xs true true e f taken kept = Improves-taken title a x xs _ f (taken e)
choose_later title a x xs true false e f taken kept =
    Improves-kept title a x xs _ (ground arith) kept
choose_later title a x xs false l e f taken kept = Improves-kept title a x xs _ (ground arith) kept

latest_from :
    (title : String) (a : Session) (ss : List Session)
    → is_titled title a ≡ true
    → Improves title a ss (latest_titled title (some a) ss)
unfolding latest_titled
latest_from title a [] t = (inl refl, t, refl, ground arith)
latest_from title a (x ∷ xs) t =
    choose_later title a x xs (is_titled title x) (ltb_ℤ a.created x.created) refl refl
      (latest_from title x xs) (latest_from title a xs t)

IsLatest-first :
    (title : String) (x : Session) (xs : List Session) (o : Option Session)
    → Improves title x xs o
    → IsLatestTitled title (x ∷ xs) o
IsLatest-first title x xs none h = elim h [ ]
IsLatest-first title x xs (some s) (among, titled, none_later, higher) =
    (among, titled, ground arith)

IsLatest-other :
    (title : String) (x : Session) (xs : List Session) (o : Option Session)
    → is_titled title x ≡ false
    → IsLatestTitled title xs o
    → IsLatestTitled title (x ∷ xs) o
IsLatest-other title x xs none e h = ground arith
IsLatest-other title x xs (some s) e (among, titled, none_later) = (inr among, titled, ground arith)

choose_first :
    (title : String) (x : Session) (xs : List Session) (b : Bool)
    → is_titled title x ≡ b
    → IsLatestTitled title xs (latest_titled title none xs)
    → IsLatestTitled title (x ∷ xs) (latest_titled title (if b then some x else none) xs)
choose_first title x xs true e rest = IsLatest-first title x xs _ (latest_from title x xs e)
choose_first title x xs false e rest = IsLatest-other title x xs _ e rest

-- `FindSessionByTitle` picks, of the sessions that the server lists, the one with exactly the title
-- that was created last, and none only if no session has the title.
pub latest_titled-IsLatest :
    (title : String) (ss : List Session) → IsLatestTitled title ss (latest_titled title none ss)
unfolding latest_titled
latest_titled-IsLatest title [] = refl
latest_titled-IsLatest title (x ∷ xs) =
    choose_first title x xs (is_titled title x) refl (latest_titled-IsLatest title xs)
