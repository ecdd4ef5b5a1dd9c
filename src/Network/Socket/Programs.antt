-- ===== src/Network/Socket/Programs.antt =====
-- Programs of socket operations.
use svarog_io.Common.{◌≡◌, List, [], ◌∷◌}
use mathlib.Core.Path.{subst}
use svarog_io.Contracts.{Checked, passed}
use svarog_io.Network.Socket.Operations.{Os}
use svarog_io.Network.Socket.Ownership.{Sockets, Command, Kernel, step}
use svarog_io.Network.Socket.Exclusive.{Owned, Allowed}
use svarog_io.Network.Socket.Commands.{After, step-Owned}

module _ {ℓ} {E W : Type ℓ} (os : Os E W) (k : Kernel os) where
  -- A run of commands, each allowed where it is given, to a state.
  pub data RunsTo : Sockets W → List Command → Sockets W → Type ℓ where
    finished : {s : Sockets W} → RunsTo s [] s
    continues :
        {s t u : Sockets W} (c : Command) {cs : List Command}
        → Allowed os k c s
        → step os c s ≡ passed t
        → RunsTo t cs u
        → RunsTo s (c ∷ cs) u

  -- No program of constructions, `open`, `close`, `assign`, `release`, moves and destructions, with
  -- the process still alive, makes two sockets hold the same descriptor, and what a socket holds is
  -- open in the system: given that both hold at the start, that a new descriptor was not open
  -- before, that `close` closes no other, and that `assign` and the constructor from a native socket
  -- get an open descriptor that no socket holds, or none.
  pub RunsTo-Owned :
      (s t : Sockets W) (cs : List Command) → RunsTo s cs t → Owned os k s → Owned os k t
  RunsTo-Owned s t [] finished own = own
  RunsTo-Owned s t (c ∷ cs) (continues {t = u} _ ok e rest) own =
      RunsTo-Owned u t cs rest (ap_after e (step-Owned os k c s ok own))
    where
      ap_after : {r : Checked (Sockets W)} → r ≡ passed u → After os k (Owned os k) r → Owned os k u
      ap_after e h = subst (After os k (Owned os k)) e h
