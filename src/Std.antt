-- ===== src/Std.antt =====
-- The containers of the C++ standard library that the program uses, keyed by a socket or an epoll
-- id: `std::set` in Std/Set, `std::map` in Std/Map.
pub mod Set
pub mod Map
