-- ===== src/Util/Env.antt =====
-- src/util.cpp: `get_env` and `uuid`, with the environment and the generator of Boost as parameters.
use klib.Base.{Option, Bytes, c_str}

-- `std::getenv` gives no string for a name that is not set.
unfoldable pub get_env : (Bytes → Option Bytes) → Bytes → Option Bytes
get_env getenv name = getenv (c_str name)

-- `random_generator` gives an identifier, and `to_string` its text.
unfoldable pub uuid :
    {Uuid World : Type 0} → (World → Uuid × World) → (Uuid → Bytes) → World → Bytes × World
uuid random_generator to_string w = let (id, w') = random_generator w in (to_string id, w')
