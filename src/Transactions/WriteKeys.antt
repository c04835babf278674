-- ===== src/Transactions/WriteKeys.antt =====
-- `GetWriteKeys` and `IsTransactionCommand` of transaction.go, `IsBlockingCommand` of blocking_handlers.go.
use Prim.Native.Char.{code}
use Prim.Native.String.{String}
use go_redis.Prelude.{List, [], ◌∷◌, Bool, false, if◌then◌else◌, ◌||◌}
use go_redis.Prelude.Eq.{Text, text_eq, ◌==◌}

-- the bytes of an ASCII literal
abbrev pub codes : String → Text
codes String.[] = []
codes (String.◌∷◌ c s) = code c ∷ codes s

one_of : List String → Text → Bool
one_of [] name = false
one_of (n ∷ names) name = name == codes n || one_of names name

unfoldable pub is_transaction_command : Text → Bool
unfolding one_of
is_transaction_command = one_of ("MULTI" ∷ "EXEC" ∷ "DISCARD" ∷ "WATCH" ∷ "UNWATCH" ∷ [])

unfoldable pub is_blocking_command : Text → Bool
unfolding one_of
is_blocking_command = one_of ("BLPOP" ∷ "BRPOP" ∷ "BLMOVE" ∷ "BRPOPLPUSH" ∷ [])

-- the four cases of `executeWithTransaction` for subscriptions
unfoldable pub is_subscription_command : Text → Bool
unfolding one_of
is_subscription_command = one_of ("SUBSCRIBE" ∷ "UNSUBSCRIBE" ∷ "PSUBSCRIBE" ∷ "PUNSUBSCRIBE" ∷ [])

-- the commands that a client in pub/sub mode may send
unfoldable pub is_pub_sub_mode_command : Text → Bool
unfolding one_of
is_pub_sub_mode_command =
    one_of ("SUBSCRIBE" ∷ "PSUBSCRIBE" ∷ "UNSUBSCRIBE" ∷ "PUNSUBSCRIBE" ∷ "PING" ∷ "QUIT" ∷ [])

-- the keys of `MSET key value key value ...`
alternate : List Text → List Text
alternate [] = []
alternate (key ∷ []) = key ∷ []
alternate (key ∷ value ∷ args) = key ∷ alternate args

-- the first two arguments, or the only one
first_two : List Text → List Text
first_two [] = []
first_two (a ∷ []) = a ∷ []
first_two (a ∷ b ∷ args) = a ∷ b ∷ []

-- The keys that a command with at least one argument writes to; no keys stand for Go's nil.
keys_of_command : Text → Text → List Text → List Text
unfolding one_of alternate first_two
keys_of_command cmd key args =
    if one_of
      ("SET" ∷ "SETEX" ∷ "SETNX" ∷ "GETSET" ∷ "INCR" ∷ "INCRBY" ∷ "INCRBYFLOAT" ∷ "DECR" ∷ "DECRBY"
        ∷ "APPEND" ∷ [])
      cmd
    then key ∷ []
    else if one_of ("MSET" ∷ "MSETNX" ∷ []) cmd
    then alternate (key ∷ args)
    else if one_of
        ("LPUSH" ∷ "RPUSH" ∷ "LPOP" ∷ "RPOP" ∷ "LSET" ∷ "LREM" ∷ "LTRIM" ∷ "LINSERT" ∷ []) cmd
    then key ∷ []
    else if one_of ("RPOPLPUSH" ∷ "LMOVE" ∷ []) cmd
    then first_two (key ∷ args)
    else if one_of ("HSET" ∷ "HSETNX" ∷ "HDEL" ∷ "HINCRBY" ∷ "HINCRBYFLOAT" ∷ []) cmd
    then key ∷ []
    else if one_of ("SADD" ∷ "SREM" ∷ "SPOP" ∷ "SMOVE" ∷ []) cmd
    then key ∷ []
    else if one_of ("SUNIONSTORE" ∷ "SINTERSTORE" ∷ "SDIFFSTORE" ∷ []) cmd
    then key ∷ []
    else if one_of ("DEL" ∷ "UNLINK" ∷ []) cmd
    then key ∷ args
    else if one_of ("RENAME" ∷ []) cmd
    then first_two (key ∷ args)
    else if one_of ("EXPIRE" ∷ "EXPIREAT" ∷ "PEXPIRE" ∷ "PEXPIREAT" ∷ "PERSIST" ∷ []) cmd
    then key ∷ []
    else []

unfoldable pub get_write_keys : Text → List Text → List Text
unfolding keys_of_command
get_write_keys cmd [] = []
get_write_keys cmd (key ∷ args) = keys_of_command cmd key args
