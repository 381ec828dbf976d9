-- ===== src/Http/ClientIp.antt =====
-- internal/clientip: the address that a request is attributed to.
--
-- A request is its X-Forwarded-For lines, in the order in which they came, and RemoteAddr;
-- net.SplitHostPort is the network library's, and a parameter.
use mathlib.Core.List.{append-nil, append_assoc}
use whenweall.Prelude.{
  ◌∙◌, ◌≡◌, refl, sym, Bool, true, false, not, ◌&&◌, Option, none, some, List, [], ◌∷◌, ◌++◌, arith,
  ◌==◌, any, if◌then◌else◌,
}
use whenweall.Prelude.Text.{Text, trim_space, is_empty}

-- `parts[len(parts)-1]` of strings.Split on a comma: `current` is the part that is being read.
unfoldable pub last_part : Text → Text → Text
last_part current [] = current
last_part current (c ∷ t) = if c == b',' then last_part [] t else last_part (current ++ c ∷ []) t

abbrev or_remote : Option Text → Text → Text
or_remote none remote = remote
or_remote (some host) remote = host

-- Header.Get: the first line, or "".
abbrev pub header_get : List Text → Text
header_get [] = []
header_get (line ∷ _) = line

module _ (split_host : Text → Option Text) where
  unfoldable pub from_request : List Text → Text → Bool → Text
  unfolding last_part trim_space
  from_request lines remote trust_proxy =
      let forwarded = header_get lines in
      let last = trim_space (last_part [] forwarded) in
      if trust_proxy && not (is_empty forwarded) && not (is_empty last)
      then last
      else or_remote (split_host remote) remote

abbrev has_comma : Text → Bool
has_comma t = any (λ c. c == b',') t

last_part-plain : (current t : Text) → has_comma t ≡ false → last_part current t ≡ current ++ t
unfolding last_part
last_part-plain current [] plain = sym (append-nil current)
last_part-plain current (c ∷ t) plain =
    let other : (c == b',') ≡ false = ground arith in
    rw other
      (last_part-plain (current ++ c ∷ []) t (ground arith) ∙ append_assoc current (c ∷ []) t)

-- What stands before the last comma is not read.
last_part-append :
    (current claimed address : Text)
    → has_comma address ≡ false
    → last_part current (claimed ++ b',' ∷ address) ≡ address
unfolding last_part
last_part-append current [] address plain = last_part-plain [] address plain
last_part-append current (c ∷ claimed) address plain = ground (
  arith,
  last_part-append [] claimed address plain,
  last_part-append (current ++ c ∷ []) claimed address plain,
)

-- If the proxy is trusted and appends the address it saw, after a comma, to the first
-- X-Forwarded-For line, that address without the space around it is the answer, whatever stood in
-- that line before and whatever other lines follow, if it has no comma and is not blank.
pub from_request-append :
    (split_host : Text → Option Text) (claimed address remote : Text) (others : List Text)
    → has_comma address ≡ false
    → is_empty (trim_space address) ≡ false
    → from_request split_host ((claimed ++ b',' ∷ address) ∷ others) remote true
      ≡ trim_space address
unfolding from_request
from_request-append split_host claimed address remote others plain full =
    rw (last_part-append [] claimed address plain, nonempty claimed address, full) refl
  where
    nonempty : (s t : Text) → is_empty (s ++ b',' ∷ t) ≡ false
    nonempty [] t = refl
    nonempty (c ∷ s) t = refl
