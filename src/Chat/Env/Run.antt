-- ===== src/Chat/Env/Run.antt =====
-- Inversion of runs of a turn's actions (open-bbcd/internal/chat/orchestrator.go).
use open_bbc.Base.{◌≡◌, refl, ap}
use open_bbc.Chat.Env.{Call, lift, Outcome, ok, err, panicked, State, Io, ◌>>=◌, continue}

pub returned-injective :
    {W A : Type 0} (a b : A) (s t : State W)
    → ◌≡◌ {A = Outcome A × State W} (ok a, s) (ok b, t)
    → a ≡ b
returned-injective a b s t h = cc

module _ {W A B : Type 0} where
  pub continue-eq-ok :
      (r : Outcome A × State W) (f : A → Io W B) {b : B} {t : State W}
      → continue r f ≡ (ok b, t)
      → (a : A) × (s : State W) × (r ≡ (ok a, s)) × (f a s ≡ (ok b, t))
  continue-eq-ok (ok a, s) f h = (a, s, refl, h)
  continue-eq-ok (err e, s) f h = cc
  continue-eq-ok (panicked, s) f h = cc

  -- A sequence that returns: both parts do.
  pub >>=-eq-ok :
      (m : Io W A) (f : A → Io W B) (s : State W) {b : B} {t : State W}
      → (m >>= f) s ≡ (ok b, t)
      → (a : A) × (u : State W) × (m s ≡ (ok a, u)) × (f a u ≡ (ok b, t))
  >>=-eq-ok m f s h = continue-eq-ok (m s) f h

pub lift-eq-ok :
    {W A : Type 0} (c : Call W A) (s t : State W) (a : A)
    → lift c s ≡ (ok a, t)
    → (c s.world).0 ≡ ok a
lift-eq-ok c s t a h = ap (λ r. r.0) h
