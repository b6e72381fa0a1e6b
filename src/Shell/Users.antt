-- ===== src/Shell/Users.antt =====
-- The users of src/shell.c, with `login` and `whoami`.
use kfs.Prelude.{
  ℕ, Bool, Option, none, some, List, [], ◌∷◌, ◌++◌, ◌==◌, find_index, get_elem?, codes, modify,
  to_int, if◌then◌else◌,
}
use kfs.Process.{Processes}
use kfs.Vfs.{same_text}
use kfs.Shell.{Shell, say, say_in, complain, light_cyan, green}
use kfs.Shell.Files.{number_text}

pub record User : Type 0 where
  pub username : List ℕ
  pub password : List ℕ
  pub uid : ℕ

abbrev user_entry : List ℕ → ℕ → User
user_entry name uid = record { username = name; password = name; uid = uid }

unfoldable pub users : List User
users =
    user_entry (codes "root") 0
    ∷ user_entry (codes "admin") 1
    ∷ user_entry (codes "user") 1000
    ∷ user_entry (codes "guest") 1001
    ∷ []

-- The first entry that passes the test.
abbrev pub first_user : (User → Bool) → Option User
first_user p = elim (find_index p users) [ none ↦ none | some i ↦ get_elem? users i ]

abbrev pub named : List ℕ → User → Bool
named name u = same_text u.username name

-- The user of the current process, if there is one.
unfoldable pub set_current_uid : ℕ → Processes → Processes
set_current_uid uid st = elim st.current_process [
  | none ↦ st
  | some i ↦ record st { table = modify (λ p. record p { uid = uid }) st.table i }
]

-- The user of the shell and of its process.
unfoldable pub become : ℕ → Shell → Shell
unfolding set_current_uid
become uid sh = record sh { current_uid = uid; processes = set_current_uid uid sh.processes }

unfoldable login_as : Shell → (username password : List ℕ) → Option User → Shell
unfolding become say_in
login_as sh username password none =
    complain (codes "Login failed: User '" ++ (username ++ codes "' not found\n")) sh
login_as sh username password (some u) =
    if same_text u.password password
    then become u.uid (
        say_in green
          (codes "Login successful! Welcome "
            ++ (username ++ (codes " (UID: " ++ (number_text (to_int u.uid) ++ codes ")\n"))))
          sh)
    else complain (codes "Login failed: Incorrect password\n") sh

-- With no password, the name of the user stands for it.
unfoldable pub cmd_login : Shell → List (List ℕ) → Shell
unfolding login_as say say_in users
cmd_login sh (name ∷ username ∷ []) = login_as sh username username (first_user (named username))
cmd_login sh (name ∷ username ∷ password ∷ rest) =
    login_as sh username password (first_user (named username))
cmd_login sh _ = say (codes "Password for all users is same as username\n") (
    say (codes "Available users: root, admin, user, guest\n")
      (say_in light_cyan (codes "Usage: login <username>\n") sh))

abbrev with_uid : List ℕ → ℕ → List ℕ
with_uid name uid = name ++ (codes " (UID: " ++ (number_text (to_int uid) ++ codes ")\n"))

unfoldable pub cmd_whoami : Shell → Shell
unfolding say users
cmd_whoami sh = elim (first_user (λ u. u.uid == sh.current_uid)) [
  | none ↦ say (with_uid (codes "unknown") sh.current_uid) sh
  | some u ↦ say (with_uid u.username sh.current_uid) sh
]
