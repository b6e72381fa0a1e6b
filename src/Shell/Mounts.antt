-- ===== src/Shell/Mounts.antt =====
-- `mount` and `umount` of src/shell.c.
use kfs.Prelude.{
  ℕ, not, Option, none, some, List, [], ◌∷◌, ◌++◌, codes, ℤ, pos, ◌=ℤ=◌, if◌then◌else◌,
}
use kfs.Vfs.{Vfs, same_text}
use kfs.Vfs.Mount.{vfs_mount, vfs_unmount}
use kfs.Shell.{Shell, Answers, say, say_in, complain, light_cyan, green}

-- The channel and the drive of a device.
unfoldable drive_of : List ℕ → Option (ℕ × ℕ)
drive_of device =
    if same_text device (codes "hda0")
    then some (0, 0)
    else if same_text device (codes "hda1")
    then some (0, 1)
    else if same_text device (codes "hdb0")
    then some (1, 0)
    else if same_text device (codes "hdb1")
    then some (1, 1)
    else none

unfoldable mount_usage : Shell → Shell
unfolding say say_in
mount_usage sh = say (codes "  hdb1 - Secondary Slave (IDE 1:1)\n") (
    say (codes "  hdb0 - Secondary Master (IDE 1:0)\n") (
      say (codes "  hda1 - Primary Slave (IDE 0:1)\n") (
        say (codes "  hda0 - Primary Master (IDE 0:0)\n") (
          say (codes "Available devices:\n") (
            say (codes "  Example: mount hda1 /mnt\n\n") (
              say (codes "  mount <device> <path>  - Mount device at path\n") (
                say (codes "  mount                  - Show all mounted filesystems\n")
                  (say_in light_cyan (codes "Usage:\n") sh))))))))

unfoldable pub mounted : Shell → (device path : List ℕ) → ℤ × Vfs → Shell
unfolding say_in
mounted sh device path (result, vfs) =
    let sh' = record sh { vfs = vfs } in
    if not (result =ℤ= pos 0)
    then complain
        (codes "mount: Failed to mount " ++ (device ++ (codes " at " ++ (path ++ codes "\n")))) sh'
    else say_in green
        (codes "mount: Successfully mounted " ++ (device ++ (codes " at " ++ (path ++ codes "\n"))))
        sh'

-- What `ext2_init` finds is `none` where it fails.
unfoldable mount_disk : Answers → Shell → (device path : List ℕ) → Option (ℕ × ℕ) → Shell
unfolding mounted say_in
mount_disk ans sh device path none =
    complain (codes "mount: Unknown device '" ++ (device ++ codes "'\n")) sh
mount_disk ans sh device path (some (channel, drive)) =
    if not ans.fs_memory
    then complain (codes "mount: Out of memory\n") sh
    else elim (ans.disk channel drive) [
      | none ↦ complain (codes "mount: No EXT2 filesystem on " ++ (device ++ codes "\n")) sh
      | some f ↦ mounted sh device path (vfs_mount ans.node_memory sh.vfs (some path) (some f))
    ]

-- The second test of the code, for one argument, comes after that for fewer than two.
unfoldable pub cmd_mount : Answers → Shell → List (List ℕ) → Shell
unfolding mount_usage mount_disk drive_of say say_in
cmd_mount ans sh [] = mount_usage sh
cmd_mount ans sh (name ∷ []) = mount_usage sh
cmd_mount ans sh (name ∷ device ∷ []) =
    say (codes "Usage: mount <device> <path>\n")
      (complain (codes "mount: Missing mount point\n") sh)
cmd_mount ans sh (name ∷ device ∷ path ∷ rest) = mount_disk ans sh device path (drive_of device)

unfoldable pub unmounted : Shell → List ℕ → ℤ × Option ℕ × Vfs → Shell
unfolding say_in
unmounted sh path (result, freed, vfs) =
    let sh' = record sh { vfs = vfs } in
    if not (result =ℤ= pos 0)
    then complain (codes "umount: Failed to unmount " ++ (path ++ codes "\n")) sh'
    else say_in green (codes "umount: Successfully unmounted " ++ (path ++ codes "\n")) sh'

unfoldable pub cmd_umount : Shell → List (List ℕ) → Shell
unfolding unmounted say_in
cmd_umount sh (name ∷ path ∷ rest) =
    if same_text path (codes "/")
    then complain (codes "umount: Cannot unmount root filesystem\n") sh
    else unmounted sh path (vfs_unmount sh.vfs (some path))
cmd_umount sh _ = complain (codes "Usage: umount <path>\n") sh
