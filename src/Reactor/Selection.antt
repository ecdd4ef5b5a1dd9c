-- ===== src/Reactor/Selection.antt =====
-- io/detail/platform_config.hpp, and the reactor that io/io_context.hpp chooses. The preprocessor's
-- tests are Booleans: whether a macro is defined.
use svarog_io.Common.{◌≡◌, ◌↔◌, Bool, true, false, ◌&&◌, ◌||◌, if◌then◌else◌, arith}

-- The macros that compilers define.
pub record Predefined : Type 0 where
  pub win32 : Bool
  pub win64 : Bool
  pub linux : Bool
  pub apple : Bool
  pub mach : Bool
  pub freebsd : Bool
  pub openbsd : Bool
  pub netbsd : Bool
  pub dragonfly : Bool
  pub bsd : Bool

-- `SVAROG_PLATFORM_WINDOWS`, `_LINUX`, `_MACOS` and `_BSD`
pub record Macros : Type 0 where
  pub windows : Bool
  pub linux : Bool
  pub macos : Bool
  pub bsd : Bool

abbrev no_macro : Macros
no_macro = record { windows = false; linux = false; macos = false; bsd = false }

unfoldable pub define_macros : Predefined → Macros
define_macros p =
    if p.win32 || p.win64
    then record no_macro { windows = true }
    else if p.linux
    then record no_macro { linux = true }
    else if p.apple && p.mach
    then record no_macro { macos = true }
    else if p.freebsd
    then record no_macro { bsd = true }
    else if p.openbsd
    then record no_macro { bsd = true }
    else if p.netbsd
    then record no_macro { bsd = true }
    else if p.dragonfly
    then record no_macro { bsd = true }
    else if p.bsd
    then record no_macro { bsd = true }
    else no_macro

pub data Platform : Type 0 where
  on_bsd : Platform
  linux_os : Platform
  on_macos : Platform
  on_windows : Platform
  unknown : Platform

unfoldable pub current_platform : Predefined → Platform
unfolding define_macros
current_platform p =
    let m = define_macros p in
    if m.windows
    then on_windows
    else if m.linux
    then linux_os
    else if p.apple && p.mach
    then on_macos
    else if m.bsd
    then on_bsd
    else unknown

unfoldable pub is_bsd : Predefined → Bool
unfolding current_platform
is_bsd p = elim (current_platform p) [ on_bsd ↦ true | _ ↦ false ]

unfoldable pub is_linux : Predefined → Bool
unfolding current_platform
is_linux p = elim (current_platform p) [ linux_os ↦ true | _ ↦ false ]

unfoldable pub is_macos : Predefined → Bool
unfolding current_platform
is_macos p = elim (current_platform p) [ on_macos ↦ true | _ ↦ false ]

unfoldable pub is_windows : Predefined → Bool
unfolding current_platform
is_windows p = elim (current_platform p) [ on_windows ↦ true | _ ↦ false ]

pub data ReactorBackend : Type 0 where
  epoll : ReactorBackend
  kqueue : ReactorBackend
  iocp : ReactorBackend
  select_poll : ReactorBackend

-- The name is the source's.
unfoldable pub default_rector : Predefined → ReactorBackend
unfolding current_platform
default_rector p = elim (current_platform p) [
  | linux_os ↦ epoll
  | on_macos ↦ kqueue
  | on_bsd ↦ kqueue
  | on_windows ↦ iocp
  | unknown ↦ select_poll
]

-- `platform_reactor` of io_context.hpp
unfoldable pub platform_reactor : Predefined → ReactorBackend
unfolding define_macros
platform_reactor p =
    let m = define_macros p in
    if m.linux then epoll else if m.macos then kqueue else if m.windows then iocp else select_poll

-- The reactor that a context has is the one that `default_rector` names, whatever macros the
-- compiler defines, except on a BSD, where `default_rector` says kqueue and the context has the
-- reactor on `poll`; and a platform that is a BSD is none of the others.
pub platform_reactor-default :
    (p : Predefined)
    → ((platform_reactor p ≡ default_rector p) ↔ (is_bsd p ≡ false))
      × (is_bsd p ≡ true
          → (default_rector p ≡ kqueue)
            × (platform_reactor p ≡ select_poll)
            × ((is_linux p || is_macos p || is_windows p) ≡ false))
unfolding platform_reactor default_rector is_bsd is_linux is_macos is_windows define_macros
platform_reactor-default p = (ground arith, ground arith)
