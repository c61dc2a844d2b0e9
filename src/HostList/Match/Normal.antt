-- ===== src/HostList/Match/Normal.antt =====
-- The matcher looks at a request only through its normal form.
use trollbridge.Prelude.{◌≡◌, refl, [], Option, none, some}
use trollbridge.Prelude.Int.{ℤ}
use trollbridge.Text.{Text, codes, to_lower, to_upper, trim_space}
use trollbridge.Text.Laws.{lower-trim_idem, upper-trim_idem}
use trollbridge.HostList.Match.{HostList, match}

-- Case and surrounding white space of method, scheme and host make no difference to the pattern
-- that is found, and an absent path is the path "/".
pub match-normal :
    (l : Option HostList) (m s h : Text) (port : ℤ) (path : Text)
    → (match l
          (to_upper (trim_space m))
          (to_lower (trim_space s))
          (to_lower (trim_space h))
          port
          path
        ≡ match l m s h port path)
      × (match l m s h port [] ≡ match l m s h port (codes "/"))
unfolding match
match-normal none m s h port path = (refl, refl)
match-normal (some l) m s h port path =
    (rw (upper-trim_idem m, lower-trim_idem s, lower-trim_idem h), refl)
