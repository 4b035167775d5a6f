-- ===== src/Common/Equality.antt =====
-- `==` on Go strings.
use mathlib.Core.Path.{◌≡◌, refl}
use mathlib.Core.Logic.{◌↔◌}
use mathlib.Core.Bool.{Bool, true, false, ◌&&◌}
use mathlib.Core.List.{[], ◌∷◌}
use native.Mathlib.Omega.{arith}
use kiro_gateway_go.Common.Tests.{◌==◌}
use kiro_gateway_go.Common.Bytes.{Bytes}

unfoldable pub same_bytes : Bytes → Bytes → Bool
same_bytes [] [] = true
same_bytes (x ∷ s) (y ∷ t) = x == y && same_bytes s t
same_bytes _ _ = false

pub same_bytes_iff : (s t : Bytes) → (same_bytes s t ≡ true) ↔ (s ≡ t)
unfolding same_bytes
same_bytes_iff [] [] = (λ h. refl, λ h. refl)
same_bytes_iff [] (y ∷ t) = (λ h. cc, λ h. cc)
same_bytes_iff (x ∷ s) [] = (λ h. cc, λ h. cc)
same_bytes_iff (x ∷ s) (y ∷ t) = ground (arith, same_bytes_iff s t)
