-- ===== src/Domain/CertKey.antt =====
-- The certificate keys of src/domain/mod.rs: `provider/device/app/container[/serial]`.
use liuzx_skf.Domain.{split_cert_key}
use liuzx_skf.Common.{
  Text, Lacks, text_eq, split_once-join, split_once-Lacks, splitn, ℕ, suc, ◌≡◌, refl, none, some,
  [], ◌∷◌, ◌++◌,
}

splitn-join :
    (n : ℕ) (a b : Text)
    → Lacks b'/' a
    → splitn (suc (suc n)) b'/' (a ++ b'/' ∷ b) ≡ a ∷ splitn (suc n) b'/' b
unfolding splitn
splitn-join n a b h = rw (splitn, split_once-join b'/' a b h) refl

splitn-Lacks : (n : ℕ) (a : Text) → Lacks b'/' a → splitn (suc (suc n)) b'/' a ≡ a ∷ []
unfolding splitn
splitn-Lacks n a h = rw (splitn, split_once-Lacks b'/' a h) refl

-- A key of four names without a slash is split into them, and into a fifth part that may hold
-- slashes if the key goes on behind a fourth slash; three names are too few where four are asked
-- for, and enough where three are.
pub split_cert_key_join :
    (prov dev app cont serial : Text)
    → Lacks b'/' prov
    → Lacks b'/' dev
    → Lacks b'/' app
    → Lacks b'/' cont
    → (split_cert_key (prov ++ b'/' ∷ (dev ++ b'/' ∷ (app ++ b'/' ∷ (cont ++ b'/' ∷ serial)))) 4
        ≡ some (prov ∷ dev ∷ app ∷ cont ∷ serial ∷ []))
      × (split_cert_key (prov ++ b'/' ∷ (dev ++ b'/' ∷ (app ++ b'/' ∷ cont))) 4
          ≡ some (prov ∷ dev ∷ app ∷ cont ∷ []))
      × (split_cert_key (prov ++ b'/' ∷ (dev ++ b'/' ∷ app)) 4 ≡ none)
      × (split_cert_key (prov ++ b'/' ∷ (dev ++ b'/' ∷ app)) 3 ≡ some (prov ∷ dev ∷ app ∷ []))
unfolding split_cert_key
split_cert_key_join prov dev app cont serial p d a c = (
  rw (splitn-join 3 prov _ p, splitn-join 2 dev _ d, splitn-join 1 app _ a, splitn-join 0 cont _ c)
      (unfold splitn in refl),
  rw (splitn-join 3 prov _ p, splitn-join 2 dev _ d, splitn-join 1 app _ a, splitn-Lacks 0 cont c)
      refl,
  rw (splitn-join 3 prov _ p, splitn-join 2 dev _ d, splitn-Lacks 1 app a) refl,
  rw (splitn-join 3 prov _ p, splitn-join 2 dev _ d, splitn-Lacks 1 app a) refl,
)
