-- ===== src/Chat/Render/Bind.antt =====
-- Inversion of a successful step of the rendering loops of open-bbcd/internal/chat/artifacts.go.
use open_bbc.Base.{◌≡◌, refl}
use open_bbc.Chat.Render.{Pass, Rendering, ok, err, ◌>>=◌}

pub >>=-eq-ok :
    {A B : Type 0} (m : Rendering A) (f : A → Pass → Rendering B) {b : B} {t : Pass}
    → (m >>= f) ≡ ok b t
    → (a : A) × (s : Pass) × (m ≡ ok a s) × (f a s ≡ ok b t)
>>=-eq-ok (ok a s) f h = (a, s, refl, h)
>>=-eq-ok err f h = cc

pub ok-injective : {A : Type 0} (a b : A) (s t : Pass) → ok a s ≡ ok b t → (a ≡ b) × (s ≡ t)
ok-injective a b s t h = (cc, cc)
