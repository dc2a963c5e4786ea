-- ===== src/Hooks/RedisNames.antt =====
-- src/zend_hook_redis.cc: the commands that are traced.
use opentelemetry_php_ext.Common.{List, [], ◌∷◌, Bytes, text}

-- `redisKeysCommands`
unfoldable pub redis_keys_commands : List Bytes
redis_keys_commands =
    text "connect"
    ∷ text "dump"
    ∷ text "exists"
    ∷ text "expire"
    ∷ text "expireat"
    ∷ text "move"
    ∷ text "persist"
    ∷ text "pexpire"
    ∷ text "pexpireat"
    ∷ text "pttl"
    ∷ text "rename"
    ∷ text "renamenx"
    ∷ text "sort"
    ∷ text "ttl"
    ∷ text "type"
    ∷ text "append"
    ∷ text "bitcount"
    ∷ text "bitfield"
    ∷ text "decr"
    ∷ text "decrby"
    ∷ text "get"
    ∷ text "getbit"
    ∷ text "getrange"
    ∷ text "getset"
    ∷ text "incr"
    ∷ text "incrby"
    ∷ text "incrbyfloat"
    ∷ text "psetex"
    ∷ text "set"
    ∷ text "setbit"
    ∷ text "setex"
    ∷ text "setnx"
    ∷ text "setrange"
    ∷ text "strlen"
    ∷ text "bitop"
    ∷ text "hdel"
    ∷ text "hexists"
    ∷ text "hget"
    ∷ text "hgetall"
    ∷ text "hincrby"
    ∷ text "hincrbyfloat"
    ∷ text "hkeys"
    ∷ text "hlen"
    ∷ text "hmget"
    ∷ text "hmset"
    ∷ text "hscan"
    ∷ text "hset"
    ∷ text "hsetnx"
    ∷ text "hvals"
    ∷ text "hstrlen"
    ∷ text "lindex"
    ∷ text "linsert"
    ∷ text "llen"
    ∷ text "lpop"
    ∷ text "lpush"
    ∷ text "lpushx"
    ∷ text "lrange"
    ∷ text "lrem"
    ∷ text "lset"
    ∷ text "ltrim"
    ∷ text "rpop"
    ∷ text "rpush"
    ∷ text "rpushx"
    ∷ text "sadd"
    ∷ text "scard"
    ∷ text "sismember"
    ∷ text "smembers"
    ∷ text "spop"
    ∷ text "srandmember"
    ∷ text "srem"
    ∷ text "sscan"
    ∷ text "zadd"
    ∷ text "zcard"
    ∷ text "zcount"
    ∷ text "zincrby"
    ∷ text "zrange"
    ∷ text "zrangebyscore"
    ∷ text "zrank"
    ∷ text "zrem"
    ∷ text "zremrangebyrank"
    ∷ text "zremrangebyscore"
    ∷ text "zrevrange"
    ∷ text "zrevrangebyscore"
    ∷ text "zrevrank"
    ∷ text "zscore"
    ∷ text "zscan"
    ∷ text "zrangebylex"
    ∷ text "zrevrangebylex"
    ∷ text "zremrangebylex"
    ∷ text "zlexcount"
    ∷ text "pfadd"
    ∷ text "watch"
    ∷ text "geoadd"
    ∷ text "geohash"
    ∷ text "geopos"
    ∷ text "geodist"
    ∷ text "georadius"
    ∷ text "georadiusbymember"
    ∷ []
