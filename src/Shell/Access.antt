-- ===== src/Shell/Access.antt =====
-- Who gets past the login screen of src/shell.c.
use kfs.Prelude.{ℕ, ◌≡◌, false, Option, none, some, List, [], codes}
use kfs.Shell.{Shell, say}
use kfs.Shell.Line.{kept}
use kfs.Shell.Users.{User, become}
use kfs.Shell.Login.{LoginScreen, LoginResult, logged_in, shell_login}

-- The text is added to the buffer that is being typed in; nothing else but the screen changes.
record Typed (st st' : LoginScreen) (username password : List ℕ) : Type 0 where
  names : st'.username ≡ username
  words : st'.password ≡ password
  mode : st'.entering_password ≡ st.entering_password
  rest : kept st'.shell ≡ kept st.shell

-- What the login screen does with a name and a password that were typed.
abbrev pub Judged : LoginResult → List ℕ → Option User → Shell → Type 0
Judged r keys (some u) sh =
    (sh' : Shell) × (r ≡ logged_in sh' keys) × (kept sh' ≡ kept (become u.uid sh))
Judged r keys none sh =
    (st : LoginScreen) × (r ≡ shell_login st keys)
    × (st.username ≡ [])
    × (st.password ≡ [])
    × (st.entering_password ≡ false)
    × (kept st.shell ≡ kept sh)

abbrev after : Shell × Option LoginScreen → List ℕ → LoginResult
after r keys = elim r.1 [ none ↦ logged_in r.0 keys | some st ↦ shell_login st keys ]

abbrev entered : LoginScreen → LoginScreen
entered st = record st { shell = say (codes "\n\n") st.shell }
