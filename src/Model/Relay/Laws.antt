-- ===== src/Model/Relay/Laws.antt =====
-- What a RelayState parameter preserves of the browser's input.
use risaml.Prelude.{Bool, String, Option, none, some, ◌≡◌, refl, arith, ok}
use risaml.Prelude.Text.{is_empty}
use risaml.Errors.{RelayStateParam, absent, present_empty, present_value}
use risaml.Model.Relay.{try_from_option, as_deref, validate}

nil_of_is_empty : (s : String) → is_empty s ≡ Bool.true → "" ≡ s
nil_of_is_empty String.[] h = refl
nil_of_is_empty (String.◌∷◌ c s) h = cc

-- A parameter that is made of an input is valid, and gives the input back.
pub try_from_option-as_deref :
    (input : Option String) (param : RelayStateParam)
    → try_from_option input ≡ ok param
    → (as_deref param ≡ input) × (validate param ≡ ok tt)
unfolding try_from_option validate
try_from_option-as_deref none param h = ground arith
try_from_option-as_deref (some value) param h = ground (arith, nil_of_is_empty value)

-- Every valid parameter is made again of the text that it gives.
pub as_deref-try_from_option :
    (param : RelayStateParam) → validate param ≡ ok tt → try_from_option (as_deref param) ≡ ok param
unfolding try_from_option validate
as_deref-try_from_option absent h = refl
as_deref-try_from_option present_empty h = refl
as_deref-try_from_option (present_value value) h = ground arith
