-- ===== src/Shell/Tests.antt =====
-- Runs of the shell, and the theorems on it at concrete input.
use kfs.Prelude.{
  ℕ, zero, suc, ◌≡◌, ◌≢◌, ◌<◌, ◌≤◌, refl, true, false, none, some, List, [], ◌∷◌, ◌++◌, length,
  modify, replicate, All, Bool, codes, arith, inr, ltb, leb, ◌==◌, ◌&&◌, not,
}
use kfs.Vga.{Vga}
use kfs.Screen.{Screens}
use kfs.Vfs.{Vfs, node_at, same_text, is_directory}
use kfs.Vfs.Create.{vfs_init, set_operations, virtual_dir}
use kfs.Vfs.Children.{IsOrdered}
use kfs.Vfs.Lookup.{vfs_resolve_path}
use kfs.Process.{Processes, boot_processes, running}
use kfs.Shell.{Shell, Answers, Outcome, returned, shell_parse_args, text_at, say}
use kfs.Shell.Line.{Holds, keys-line, edited, IsEditing, kept}
use kfs.Shell.Paths.{cmd_cd, current_pwd, resolve_path_from_pwd, second}
use kfs.Shell.Directory.{cd-resolves}
use kfs.Shell.Commands.{Command}
use kfs.Shell.Input.{shell_keys, shell_process_command, after_command}
use kfs.Shell.Login.{LoginScreen, shell_login, waiting}
use kfs.Shell.Hidden.{login_hides}
use kfs.Shell.Listing.{list_node-returns}
use kfs.Shell.Files.{list_node, cmd_cat}
use kfs.Shell.Contents.{cat-content, IsTextFile}

abbrev blank : Vga
blank = record {
  vga_buffer = replicate 2000 0x0720;
  vga_row = 0;
  vga_column = 0;
  vga_color = 7;
  cursor = 0;
  beyond = [];
}

abbrev screens : Screens
screens = record { vga = blank; screen_buffers = []; current_screen = 0; screen_cursors = [] }

abbrev ready : Vfs
ready = vfs_init (λ i. true) (codes "hello") (record { nodes = []; root = none; mounts = [] })

-- A shell with its process, before any key.
abbrev shell_process : Processes
shell_process = record boot_processes {
  table =
      modify (λ p. record p { pid = 1; state = running; pwd = codes "/" }) boot_processes.table 0;
  current_process = some 0;
  next_pid = 2;
}

abbrev started : Shell
started = record {
  shell_buffer = replicate 256 0;
  shell_buffer_pos = 0;
  current_uid = 0;
  screens = screens;
  vfs = ready;
  processes = shell_process;
}

abbrev answers : Answers
answers = record {
  lookup_memory = λ i. true;
  buffer_memory = true;
  entry_memory = λ i. true;
  fs_memory = true;
  node_memory = true;
  disk = λ channel drive. none;
}

-- The commands of the other parts do nothing here.
abbrev elsewhere : Command → List (List ℕ) → Shell → Outcome
elsewhere c argv sh = returned sh

abbrev line : List ℕ
line = codes "  cat /readme.txt\t-n "

-- Every character passes the test.
abbrev every : (ℕ → Bool) → List ℕ → Bool
every p [] = true
every p (c ∷ cs) = p c && every p cs

every-All :
    (P : ℕ → Type 0) (p : ℕ → Bool)
    → ((c : ℕ) → p c ≡ true → P c)
    → (cs : List ℕ) → every p cs ≡ true
    → All P cs
every-All P p f [] e = tt
every-All P p f (c ∷ cs) e = (f c (ground arith), every-All P p f cs (ground arith))

started-Holds : Holds started []
started-Holds = record { capacity = refl; text = refl; size = refl; room = omega arith; marks = tt }

abbrev keys : List ℕ
keys = codes "echo  ho" ++ (8 ∷ codes "i")

keys-IsEditing : All IsEditing keys
keys-IsEditing =
    every-All IsEditing (λ c. not (c == b'\n') && not (leb 0x80 c && leb c 0x83))
      (λ c e. (ground arith, ground arith)) keys refl

keys-line_example :
    (sh' : Shell) × (shell_keys elsewhere answers (returned started) (keys ++ (b'\n' ∷ []))
      ≡ after_command (shell_process_command elsewhere answers sh' (edited [] keys)))
    × (kept sh' ≡ kept started)
    × (length (edited [] keys) ≤ 255)
keys-line_example = keys-line elsewhere answers started [] keys started-Holds keys-IsEditing

-- The last of sixteen arguments keeps the rest of the line.
abbrev sixteen : List ℕ
sixteen = codes "a b c d e f g h i j k l m n o p q"

last_argument : text_at (shell_parse_args sixteen 16).0 30 ≡ codes "p q"
unfolding shell_parse_args
last_argument = refl

-- `cd dev` moves to the directory of the start.
cd-resolves_example :
    let argv = codes "cd" ∷ codes "dev" ∷ [] in
    let (dir, vfs) = resolve_path_from_pwd answers started (second (codes "/") argv) in
    let sh' = cmd_cd answers started argv in
    ((d : ℕ)
      → dir ≡ some d
      → is_directory (node_at vfs d).kind ≡ true
      → (vfs_resolve_path (λ i. true) ready (some (current_pwd sh')) ≡ (dir, vfs))
        × (length (current_pwd sh') ≤ 255))
    × (((d : ℕ) → dir ≡ some d → is_directory (node_at vfs d).kind ≡ false)
        → sh'.processes ≡ started.processes)
cd-resolves_example =
    cd-resolves answers started (codes "cd" ∷ codes "dev" ∷ []) 0 refl (omega arith) (omega arith)

cd_dev : current_pwd (cmd_cd answers started (codes "cd" ∷ codes "dev" ∷ [])) ≡ codes "/dev"
unfolding vfs_init vfs_resolve_path same_text cmd_cd
cd_dev = refl

abbrev prompt : LoginScreen
prompt = record { shell = started; username = []; password = []; entering_password = false }

abbrev guest : List ℕ
guest = codes "guest"

abbrev secret : List ℕ → LoginScreen
secret word = record {
  shell = started;
  username = guest;
  password = word;
  entering_password = true;
}

login_hides_example :
    (u : LoginScreen) × (u' : LoginScreen) × (shell_login (secret (codes "a")) (codes "bc")
      ≡ waiting u)
    × (shell_login (secret (codes "x")) (codes "yz") ≡ waiting u')
    × (u.shell ≡ u'.shell)
login_hides_example =
    login_hides (secret (codes "a")) (secret (codes "x")) (codes "bc") (codes "yz")
      (record { shown = refl; size = refl; mode = refl; mode' = refl })
      (
        inr (refl, refl),
        (λ e. absurd (omega arith)),
        (inr (refl, refl), (λ e. absurd (omega arith)), tt),
      )

abbrev alone : Shell
alone = record started {
  vfs = record {
    nodes = set_operations (virtual_dir (codes "/")) ∷ [];
    root = some 0;
    mounts = [];
  };
}

alone-IsOrdered : IsOrdered alone.vfs
alone-IsOrdered = record { earlier = earlier; exists = exists }
  where
    earlier : (i j : ℕ) → i < 1 → (node_at alone.vfs i).next_sibling ≡ some j → j < i
    earlier zero j h e = absurd (cc)
    earlier (suc i) j h e = absurd (omega arith)

    exists : (i c : ℕ) → i < 1 → (node_at alone.vfs i).children ≡ some c → c < 1
    exists zero c h e = absurd (cc)
    exists (suc i) c h e = absurd (omega arith)

list_node-returns_example :
    (sh' : Shell) × (list_node answers alone (codes "/") (some 0) ≡ returned sh')
list_node-returns_example =
    list_node-returns answers alone (codes "/") 0 alone-IsOrdered (omega arith)

found : (resolve_path_from_pwd answers started (codes "readme.txt")).0 ≡ some 4
unfolding vfs_init vfs_resolve_path same_text resolve_path_from_pwd
found = refl

file : IsTextFile (resolve_path_from_pwd answers started (codes "readme.txt")).1 4 (codes "hello")
unfolding vfs_init vfs_resolve_path same_text resolve_path_from_pwd
file = record {
  kind = refl;
  operation = refl;
  stored = refl;
  size = refl;
  bound = omega arith;
  marks = every-All (λ c. c ≢ 0) (λ c. ltb 0 c) (λ c e. ground arith) (codes "hello") refl;
}

cat-content_example :
    cmd_cat answers started (codes "cat" ∷ codes "readme.txt" ∷ [])
    ≡ returned (
        say
          (codes "hello")
          (record started { vfs = (resolve_path_from_pwd answers started (codes "readme.txt")).1 }))
cat-content_example =
    cat-content answers started (codes "cat") (codes "readme.txt") [] 4 (codes "hello") found file
      refl
