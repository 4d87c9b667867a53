-- ===== src/Policy/Classify/Tables.antt =====
-- internal/policy/classify.go: the keyword tables.
use tracepoint.Base.{List, [], ◌∷◌}
use tracepoint.Base.Text.{Text, codes}

unfoldable pub sql_read_verbs : List Text
sql_read_verbs =
    codes "SELECT"
    ∷ codes "SHOW"
    ∷ codes "EXPLAIN"
    ∷ codes "DESCRIBE"
    ∷ codes "DESC"
    ∷ codes "VALUES"
    ∷ codes "TABLE"
    ∷ codes "ANALYZE"
    ∷ codes "PRAGMA"
    ∷ []

unfoldable pub sql_write_verbs : List Text
sql_write_verbs =
    codes "INSERT"
    ∷ codes "UPDATE"
    ∷ codes "DELETE"
    ∷ codes "MERGE"
    ∷ codes "UPSERT"
    ∷ codes "REPLACE"
    ∷ codes "COPY"
    ∷ codes "CALL"
    ∷ codes "DO"
    ∷ codes "EXEC"
    ∷ codes "EXECUTE"
    ∷ []

unfoldable pub sql_dangerous_verbs : List Text
sql_dangerous_verbs =
    codes "DROP"
    ∷ codes "TRUNCATE"
    ∷ codes "ALTER"
    ∷ codes "CREATE"
    ∷ codes "RENAME"
    ∷ codes "GRANT"
    ∷ codes "REVOKE"
    ∷ codes "VACUUM"
    ∷ codes "REINDEX"
    ∷ codes "CLUSTER"
    ∷ codes "SHUTDOWN"
    ∷ codes "RESET"
    ∷ codes "KILL"
    ∷ codes "LOCK"
    ∷ []

unfoldable pub redis_reads : List Text
redis_reads =
    codes "GET"
    ∷ codes "MGET"
    ∷ codes "STRLEN"
    ∷ codes "GETRANGE"
    ∷ codes "SUBSTR"
    ∷ codes "EXISTS"
    ∷ codes "TTL"
    ∷ codes "PTTL"
    ∷ codes "TYPE"
    ∷ codes "OBJECT"
    ∷ codes "DUMP"
    ∷ codes "HGET"
    ∷ codes "HMGET"
    ∷ codes "HGETALL"
    ∷ codes "HKEYS"
    ∷ codes "HVALS"
    ∷ codes "HLEN"
    ∷ codes "HEXISTS"
    ∷ codes "HRANDFIELD"
    ∷ codes "LRANGE"
    ∷ codes "LLEN"
    ∷ codes "LINDEX"
    ∷ codes "LPOS"
    ∷ codes "SMEMBERS"
    ∷ codes "SCARD"
    ∷ codes "SISMEMBER"
    ∷ codes "SMISMEMBER"
    ∷ codes "SRANDMEMBER"
    ∷ codes "SINTER"
    ∷ codes "SUNION"
    ∷ codes "SDIFF"
    ∷ codes "ZRANGE"
    ∷ codes "ZRANGEBYSCORE"
    ∷ codes "ZRANGEBYLEX"
    ∷ codes "ZREVRANGE"
    ∷ codes "ZSCORE"
    ∷ codes "ZMSCORE"
    ∷ codes "ZCARD"
    ∷ codes "ZCOUNT"
    ∷ codes "ZRANK"
    ∷ codes "ZREVRANK"
    ∷ codes "ZRANDMEMBER"
    ∷ codes "BITCOUNT"
    ∷ codes "BITPOS"
    ∷ codes "GETBIT"
    ∷ codes "PFCOUNT"
    ∷ codes "XLEN"
    ∷ codes "XRANGE"
    ∷ codes "XREVRANGE"
    ∷ codes "XINFO"
    ∷ codes "GEOPOS"
    ∷ codes "GEODIST"
    ∷ codes "GEOSEARCH"
    ∷ codes "PING"
    ∷ codes "ECHO"
    ∷ codes "TIME"
    ∷ codes "DBSIZE"
    ∷ codes "INFO"
    ∷ codes "LASTSAVE"
    ∷ codes "SCAN"
    ∷ codes "HSCAN"
    ∷ codes "SSCAN"
    ∷ codes "ZSCAN"
    ∷ codes "RANDOMKEY"
    ∷ codes "KEYS"
    ∷ codes "MEMORY"
    ∷ codes "LATENCY"
    ∷ codes "COMMAND"
    ∷ codes "LOLWUT"
    ∷ []

unfoldable pub redis_dangerous : List Text
redis_dangerous =
    codes "FLUSHALL"
    ∷ codes "FLUSHDB"
    ∷ codes "SHUTDOWN"
    ∷ codes "DEBUG"
    ∷ codes "REPLICAOF"
    ∷ codes "SLAVEOF"
    ∷ codes "MIGRATE"
    ∷ codes "SWAPDB"
    ∷ codes "MODULE"
    ∷ codes "FAILOVER"
    ∷ codes "RESET"
    ∷ codes "BGREWRITEAOF"
    ∷ codes "SAVE"
    ∷ []

unfoldable pub redis_blocking : List Text
redis_blocking =
    codes "KEYS"
    ∷ codes "SORT"
    ∷ codes "SINTERSTORE"
    ∷ codes "SUNIONSTORE"
    ∷ codes "SDIFFSTORE"
    ∷ codes "SMEMBERS"
    ∷ codes "HGETALL"
    ∷ codes "LRANGE"
    ∷ codes "ZUNIONSTORE"
    ∷ codes "ZINTERSTORE"
    ∷ []

unfoldable pub redis_writes : List Text
redis_writes =
    codes "SET"
    ∷ codes "SETNX"
    ∷ codes "SETEX"
    ∷ codes "PSETEX"
    ∷ codes "MSET"
    ∷ codes "MSETNX"
    ∷ codes "GETSET"
    ∷ codes "GETDEL"
    ∷ codes "GETEX"
    ∷ codes "APPEND"
    ∷ codes "SETRANGE"
    ∷ codes "SETBIT"
    ∷ codes "BITFIELD"
    ∷ codes "BITOP"
    ∷ codes "INCR"
    ∷ codes "INCRBY"
    ∷ codes "INCRBYFLOAT"
    ∷ codes "DECR"
    ∷ codes "DECRBY"
    ∷ codes "DEL"
    ∷ codes "UNLINK"
    ∷ codes "EXPIRE"
    ∷ codes "PEXPIRE"
    ∷ codes "EXPIREAT"
    ∷ codes "PEXPIREAT"
    ∷ codes "PERSIST"
    ∷ codes "RENAME"
    ∷ codes "RENAMENX"
    ∷ codes "HSET"
    ∷ codes "HSETNX"
    ∷ codes "HMSET"
    ∷ codes "HDEL"
    ∷ codes "HINCRBY"
    ∷ codes "HINCRBYFLOAT"
    ∷ codes "LPUSH"
    ∷ codes "RPUSH"
    ∷ codes "LPUSHX"
    ∷ codes "RPUSHX"
    ∷ codes "LPOP"
    ∷ codes "RPOP"
    ∷ codes "LSET"
    ∷ codes "LINSERT"
    ∷ codes "LREM"
    ∷ codes "LTRIM"
    ∷ codes "RPOPLPUSH"
    ∷ codes "LMOVE"
    ∷ codes "SADD"
    ∷ codes "SREM"
    ∷ codes "SPOP"
    ∷ codes "SMOVE"
    ∷ codes "SINTERSTORE"
    ∷ codes "SUNIONSTORE"
    ∷ codes "SDIFFSTORE"
    ∷ codes "ZADD"
    ∷ codes "ZREM"
    ∷ codes "ZINCRBY"
    ∷ codes "ZPOPMIN"
    ∷ codes "ZPOPMAX"
    ∷ codes "ZREMRANGEBYSCORE"
    ∷ codes "ZREMRANGEBYRANK"
    ∷ codes "ZREMRANGEBYLEX"
    ∷ codes "ZUNIONSTORE"
    ∷ codes "ZINTERSTORE"
    ∷ codes "ZDIFFSTORE"
    ∷ codes "PFADD"
    ∷ codes "PFMERGE"
    ∷ codes "SETEXPIRE"
    ∷ codes "COPY"
    ∷ codes "RESTORE"
    ∷ codes "XADD"
    ∷ codes "XDEL"
    ∷ codes "XTRIM"
    ∷ codes "XGROUP"
    ∷ codes "XACK"
    ∷ codes "XCLAIM"
    ∷ codes "XAUTOCLAIM"
    ∷ codes "GEOADD"
    ∷ codes "PUBLISH"
    ∷ codes "SPUBLISH"
    ∷ codes "EVAL"
    ∷ codes "EVALSHA"
    ∷ codes "FCALL"
    ∷ codes "MULTI"
    ∷ codes "EXEC"
    ∷ codes "DISCARD"
    ∷ codes "WATCH"
    ∷ codes "UNWATCH"
    ∷ []

-- Commands that are dangerous in some subcommands only, each with those.
unfoldable pub redis_dangerous_sub : List (Text × List Text)
redis_dangerous_sub =
    (codes "CONFIG", codes "SET" ∷ codes "RESETSTAT" ∷ codes "REWRITE" ∷ [])
    ∷ (codes "SCRIPT", codes "FLUSH" ∷ [])
    ∷ (codes "CLUSTER", codes "RESET" ∷ codes "FORGET" ∷ codes "FAILOVER" ∷ codes "SETSLOT" ∷ [])
    ∷ (codes "CLIENT", codes "KILL" ∷ codes "PAUSE" ∷ codes "UNPAUSE" ∷ codes "NO-EVICT" ∷ [])
    ∷ (codes "ACL", codes "SETUSER" ∷ codes "DELUSER" ∷ codes "LOAD" ∷ codes "SAVE" ∷ [])
    ∷ (codes "FUNCTION", codes "FLUSH" ∷ codes "DELETE" ∷ [])
    ∷ []
