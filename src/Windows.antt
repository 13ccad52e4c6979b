-- ===== src/Windows.antt =====
-- The mounters of Windows (mount-manager/safe-mounter*_windows.go,
-- mount-manager/statter_windows.go) and their callers (node/utils_windows.go).
pub mod Proxy
pub mod V1
pub mod V1beta
pub mod Safe
pub mod Interface
pub mod Utils
pub mod Statter
pub mod Prepared
pub mod Made
