-- ===== src/Types/History.antt =====
-- x/alliance/types/params.go: reward histories, a list with an index for each reward denomination.
use alliance.Prelude.{Option, none, some, [], ◌∷◌, ◌==◌, if◌then◌else◌}
use alliance.Sdk.{Sdk, Denom, SdkDec}
use alliance.Types.Records.{RewardHistory, RewardHistories}

-- GetIndexByDenom: the first entry for a denomination.
unfoldable pub get_index_by_denom : Denom → RewardHistories → Option RewardHistory
get_index_by_denom denom [] = none
get_index_by_denom denom (h ∷ hs) = if h.denom == denom then some h else get_index_by_denom denom hs

-- A write through the pointer that GetIndexByDenom returns; where there is none the entry is
-- appended.
unfoldable pub put_index : Denom → SdkDec → RewardHistories → RewardHistories
put_index denom index [] = record { denom = denom; index = index } ∷ []
put_index denom index (h ∷ hs) =
    if h.denom == denom then record h { index = index } ∷ hs else h ∷ put_index denom index hs

-- The index of a denomination, zero where it is not listed.
abbrev pub index_or_zero : {W : Type 0} → Sdk W → Option RewardHistory → SdkDec
index_or_zero k none = k.zero_dec
index_or_zero k (some h) = h.index
