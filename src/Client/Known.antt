-- ===== src/Client/Known.antt =====
-- Lines that the daemon knows: its buffer in commands/daemon/daemon.c and the commands of
-- commands/daemon/registry.c.
use acer_nitro_sense_linux.Client.Transport.{client_send_commandf}
use acer_nitro_sense_linux.Client.Types.{
  ClientCall, ClientCommand, call_entry, complains, prints_usage, sends, sends_or_systemctl,
}
use acer_nitro_sense_linux.Command.Tokens.{command_first_token, command_read_token, word}
use acer_nitro_sense_linux.Config.Find.{find_by_id}
use acer_nitro_sense_linux.Daemon.Registry.{daemon_commands, find_daemon_command}
use acer_nitro_sense_linux.Prelude.{
  All, Bool, Bytes, List, Option, [], arith, codes, false, if_cases, if◌then◌else◌, is_some, leb,
  length, none, refl, some, str_eq, true, ◌++◌, ◌<◌, ◌>>=◌, ◌∷◌, ◌≡◌,
}
use acer_nitro_sense_linux.Util.Text.{skip_space}

-- The first word of the line is a command of the daemon's registry.
abbrev pub IsKnown : Bytes → Type 0
IsKnown cmd = is_some (command_first_token cmd 32 >>= find_daemon_command) ≡ true

-- What is sent, if anything is, has less than 256 bytes and starts with a known command.
abbrev pub IsServed : ClientCall → Type 0
IsServed (sends cmd) = (length cmd < 256) × IsKnown cmd
IsServed (sends_or_systemctl cmd action) = (length cmd < 256) × IsKnown cmd
IsServed _ = Unit

-- The lines that end in what the user gave, whatever that is.
pub formats-IsKnown :
    (rest : Bytes)
    → IsKnown (codes "ec-read " ++ rest)
      × IsKnown (codes "ec-dump " ++ rest)
      × IsKnown (codes "set " ++ rest)
      × IsKnown (codes "preset " ++ rest)
      × IsKnown (codes "coolboost " ++ rest)
      × IsKnown (codes "fan-mode " ++ rest)
      × IsKnown (codes "profile " ++ rest)
      × IsKnown (codes "gpu-temp " ++ rest)
      × IsKnown (codes "power-source " ++ rest)
      × IsKnown (codes "keyboard-backlight " ++ rest)
unfolding command_first_token command_read_token skip_space word find_daemon_command daemon_commands
    find_by_id str_eq
formats-IsKnown rest = (refl, refl, refl, refl, refl, refl, refl, refl, refl, refl)

-- The lines of a command alone.
pub names-IsKnown :
    IsKnown (codes "preset-show\n")
    × IsKnown (codes "stop\n")
    × IsKnown (codes "auto\n")
    × IsKnown (codes "firmware-auto\n")
    × IsKnown (codes "presets\n")
    × IsKnown (codes "capabilities\n")
    × IsKnown (codes "resume\n")
unfolding command_first_token command_read_token skip_space word find_daemon_command daemon_commands
    find_by_id str_eq
names-IsKnown = (refl, refl, refl, refl, refl, refl, refl)

-- A handler whose calls are all served.
abbrev Sends : ClientCommand → Type 0
Sends c = (argv : List Bytes) → IsServed (c.client_handler argv)

pub call_entry-IsServed :
    (commands : List ClientCommand) (name : Bytes) (argv : List Bytes) (otherwise : ClientCall)
    → All Sends commands
    → IsServed otherwise
    → IsServed (call_entry commands name argv otherwise)
unfolding call_entry
call_entry-IsServed [] name argv otherwise h k = k
call_entry-IsServed (c ∷ commands) name argv otherwise (h, hs) k =
    if_cases IsServed (str_eq name c.client_name) (λ _. h argv)
      (λ _. call_entry-IsServed commands name argv otherwise hs k)

pub sendf-IsServed : (text : Bytes) → IsKnown text → IsServed (client_send_commandf text)
unfolding client_send_commandf
sendf-IsServed text known =
    if_cases (λ call. IsServed call) (leb 256 (length text)) (λ _. tt) (λ e. (ground arith, known))

-- A handler that only prints the usage where the number of arguments is wrong.
pub counted-IsServed :
    (wrong : Bool) (call : ClientCall)
    → IsServed call
    → IsServed (if wrong then prints_usage else call)
counted-IsServed true call h = tt
counted-IsServed false call h = h

pub refused-IsServed :
    (refuses : Bool) (text : Bytes)
    → IsKnown text
    → IsServed (if refuses then complains else client_send_commandf text)
refused-IsServed true text known = tt
refused-IsServed false text known = sendf-IsServed text known

pub parsed-IsServed {ℓ} :
    {A : Type ℓ} (parsed : Option A) (call : A → ClientCall)
    → ((a : A) → IsServed (call a))
    → IsServed (elim parsed [ none ↦ complains | some a ↦ call a ])
parsed-IsServed none call h = tt
parsed-IsServed (some a) call h = h a
