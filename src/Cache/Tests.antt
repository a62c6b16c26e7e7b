-- ===== src/Cache/Tests.antt =====
-- The local store at work.
use maintain_pro_backend.Shared.Decimal.{number_of, scan, decimal, digits}
use maintain_pro_backend.Cache.Model.{lookup, insert, remove}
use maintain_pro_backend.Cache.Local
use maintain_pro_backend.Shared.{pos, ℕ, ◌≡◌, refl, none, some, List, [], ◌∷◌, arith}
use maintain_pro_backend.Shared.Texts.{codes}
use maintain_pro_backend.Cache.Commands.{
  Command, Reply, done, value_reply, count_reply, seconds_reply, execute_all, specify_all, execute,
}
use maintain_pro_backend.Cache.Refinement.{execute_all-refines}

-- A code that expires, a counter, and a pattern that deletes both.
abbrev session : List (ℕ × Command)
session =
    (10, Command.set_command (codes "otp:1") (codes "ab") 1)
    ∷ (20, Command.get_command (codes "otp:1"))
    ∷ (30, Command.increment_command (codes "otp:2"))
    ∷ (30, Command.expire_command (codes "otp:2") 5)
    ∷ (40, Command.increment_command (codes "otp:2"))
    ∷ (1010, Command.get_command (codes "otp:1"))
    ∷ (1020, Command.ttl_command (codes "otp:2"))
    ∷ (1030, Command.delete_by_pattern_command (codes "otp:*"))
    ∷ (1040, Command.exists_command (codes "otp:2"))
    ∷ []

abbrev replies : List Reply
replies =
    done
    ∷ value_reply (some (codes "ab"))
    ∷ count_reply (some 1)
    ∷ count_reply (some 1)
    ∷ count_reply (some 2)
    ∷ value_reply none
    ∷ seconds_reply (pos 5)
    ∷ done
    ∷ count_reply (some 0)
    ∷ []

session-replies : execute_all session [] ≡ replies
unfolding execute_all execute Local.get Local.increment Local.expire Local.ttl Local.exists
    Local.local_entry lookup Local.set insert number_of remove Local.delete_by_pattern scan decimal
    digits
session-replies = refl

execute_all-refines_example : execute_all session [] ≡ specify_all session (λ _. none)
execute_all-refines_example = execute_all-refines session (ground arith)
