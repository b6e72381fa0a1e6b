-- ===== src/Shell/Credentials.antt =====
-- The users of src/shell.c that a name and a password belong to.
use kfs.Prelude.{
  ℕ, ◌≡◌, refl, true, false, Option, none, some, List, [], ◌∷◌, ◌==◌, All, All-map, find_index,
  find_index-Found, none-find_index, get_elem?, arith,
}
use kfs.Vfs.{same_text}
use kfs.Shell.Users.{User, users, first_user}
use kfs.Shell.Login.{has_credentials}

same_text_refl : (a : List ℕ) → same_text a a ≡ true
unfolding same_text
same_text_refl [] = refl
same_text_refl (x ∷ a) = let e : (x == x) ≡ true = ground arith in rw (e, same_text_refl a) refl

same_text_sound : (a b : List ℕ) → same_text a b ≡ true → a ≡ b
unfolding same_text
same_text_sound [] [] h = refl
same_text_sound [] (y ∷ b) h = absurd (cc)
same_text_sound (x ∷ a) [] h = absurd (cc)
same_text_sound (x ∷ a) (y ∷ b) h =
    let e : x ≡ y = ground arith in
    let t : a ≡ b = same_text_sound a b (ground arith) in rw (e, t) refl

-- The outcome of a search for the user of a name and a password: an entry of the table that has both,
-- or no entry of the table has both.
pub Entitled : (username password : List ℕ) → Option User → Type 0
Entitled username password (some u) =
    (i : ℕ) × (get_elem? users i ≡ some u) × (u.username ≡ username) × (u.password ≡ password)
Entitled username password none =
    All (λ u. ¬ ((u.username ≡ username) × (u.password ≡ password))) users

both_match :
    (username password : List ℕ) (u : User)
    → has_credentials username password u ≡ true
    → (u.username ≡ username) × (u.password ≡ password)
both_match username password u h = (
  same_text_sound u.username username (ground arith),
  same_text_sound u.password password (ground arith),
)

none_match :
    (username password : List ℕ) (u : User)
    → has_credentials username password u ≡ false
    → ¬ ((u.username ≡ username) × (u.password ≡ password))
none_match username password u h (e, f) =
    let m : same_text u.username username ≡ true = rw e (same_text_refl username) in
    let n : same_text u.password password ≡ true = rw f (same_text_refl password) in
    absurd (ground arith)

searched-Entitled :
    (username password : List ℕ) (o : Option ℕ)
    → find_index (has_credentials username password) users ≡ o
    → Entitled username password (elim o [ none ↦ none | some i ↦ get_elem? users i ])
unfolding Entitled
searched-Entitled username password none e =
    All-map _ _ (none_match username password) users (none-find_index _ users e)
searched-Entitled username password (some i) e =
    let f = find_index-Found (has_credentials username password) users i e in
    let (name, word) = both_match username password f.entry f.passes in
    rw f.at (i, f.at, name, word)

pub first_user-Entitled :
    (username password : List ℕ)
    → Entitled username password (first_user (has_credentials username password))
first_user-Entitled username password = searched-Entitled username password _ refl
