-- ===== src/Bytecode/Intrinsic/Table.antt =====
-- src/include/vpp/bytecode/intrinsic.h: the table of the VM intrinsics.
use Prim.Native.String.{String}
use vxx.Prelude.{ℕ, Bool, true, false, List, [], ◌∷◌}
use vxx.Bytecode.Opcode.{
  Opcode, op_native_artifact_chay, op_vm_bien_dich_phan_tich, op_vm_bytecode_chay,
  op_vm_dns_phan_giai, op_vm_doc_bien_moi_truong, op_vm_dong_ho_dia_phuong, op_vm_dong_ho_utc,
  op_vm_duong_dan_ton_tai, op_vm_float_from_bits, op_vm_identity_hash, op_vm_io_doc_bytes,
  op_vm_io_doc_file, op_vm_io_ghi_bytes, op_vm_io_ghi_file, op_vm_io_ghi_tiep_file,
  op_vm_kich_ban_chay, op_vm_la_tep, op_vm_la_thu_muc, op_vm_la_thu_muc_khong_theo_lien_ket,
  op_vm_length, op_vm_liet_ke_thu_muc, op_vm_list_append, op_vm_list_remove,
  op_vm_machine_dir_close, op_vm_machine_dir_mkdir, op_vm_machine_dir_next, op_vm_machine_dir_open,
  op_vm_machine_dir_remove, op_vm_machine_entropy_read, op_vm_machine_env_get,
  op_vm_machine_file_close, op_vm_machine_file_error, op_vm_machine_file_open,
  op_vm_machine_file_read, op_vm_machine_file_remove, op_vm_machine_file_seek,
  op_vm_machine_file_tell, op_vm_machine_file_write, op_vm_machine_path_kind,
  op_vm_machine_process_arg, op_vm_machine_process_close, op_vm_machine_process_command_line,
  op_vm_machine_process_egid, op_vm_machine_process_env, op_vm_machine_process_error,
  op_vm_machine_process_euid, op_vm_machine_process_gid, op_vm_machine_process_new,
  op_vm_machine_process_pid, op_vm_machine_process_poll, op_vm_machine_process_ppid,
  op_vm_machine_process_read, op_vm_machine_process_start, op_vm_machine_process_uid,
  op_vm_machine_process_wait, op_vm_machine_resolve_close, op_vm_machine_resolve_next,
  op_vm_machine_resolve_open, op_vm_machine_socket_accept, op_vm_machine_socket_close,
  op_vm_machine_socket_connect, op_vm_machine_socket_kind, op_vm_machine_socket_listen,
  op_vm_machine_socket_recv, op_vm_machine_socket_send, op_vm_machine_socket_timeout,
  op_vm_machine_time_local, op_vm_machine_time_monotonic, op_vm_machine_time_realtime,
  op_vm_machine_time_sleep, op_vm_machine_tls_recv, op_vm_machine_tls_send,
  op_vm_machine_tls_upgrade, op_vm_map_has, op_vm_map_keys, op_vm_map_remove,
  op_vm_ngau_nhien_bao_mat_bytes, op_vm_ngu_mili_giay, op_vm_so_thuc_bits, op_vm_socket_chap_nhan,
  op_vm_socket_dat_timeout, op_vm_socket_dong, op_vm_socket_gui, op_vm_socket_nhan,
  op_vm_socket_phan_giai, op_vm_socket_tcp_lang_nghe, op_vm_socket_tcp_mo,
  op_vm_socket_tls_nang_cap, op_vm_socket_udp_mo, op_vm_string_bytes, op_vm_string_from_bytes,
  op_vm_tao_thu_muc, op_vm_ten_nen_tang, op_vm_thoi_gian_don_dieu_ms, op_vm_thread_cancel,
  op_vm_thread_park, op_vm_thread_spawn, op_vm_thread_status, op_vm_thread_wait,
  op_vm_tien_trinh_chay, op_vm_tuple_from_list, op_vm_type_of, op_vm_xoa_duong_dan,
}

pub record IntrinsicDescriptor : Type 0 where
  pub name : String
  pub opcode : Opcode
  pub arity : ℕ
  pub reserved : Bool

abbrev row : String → Opcode → ℕ → Bool → IntrinsicDescriptor
row name opcode arity reserved = record {
  name = name;
  opcode = opcode;
  arity = arity;
  reserved = reserved;
}

-- kVmIntrinsics
unfoldable pub vm_intrinsics : List IntrinsicDescriptor
vm_intrinsics =
    row "bien_dich_phan_tich_vm" op_vm_bien_dich_phan_tich 2 true
    ∷ row "bytecode_chay_vm" op_vm_bytecode_chay 4 true
    ∷ row "bytecode_chay_native" op_native_artifact_chay 5 true
    ∷ row "dns_phan_giai_vm" op_vm_dns_phan_giai 1 true
    ∷ row "doc_bien_moi_truong_vm" op_vm_doc_bien_moi_truong 1 true
    ∷ row "dong_ho_dia_phuong_vm" op_vm_dong_ho_dia_phuong 0 true
    ∷ row "dong_ho_utc_vm" op_vm_dong_ho_utc 0 true
    ∷ row "duong_dan_ton_tai_vm" op_vm_duong_dan_ton_tai 1 true
    ∷ row "io_doc_bytes_vm" op_vm_io_doc_bytes 1 true
    ∷ row "io_doc_file_vm" op_vm_io_doc_file 1 true
    ∷ row "io_ghi_bytes_vm" op_vm_io_ghi_bytes 2 true
    ∷ row "io_ghi_file_vm" op_vm_io_ghi_file 2 true
    ∷ row "io_ghi_tiep_file_vm" op_vm_io_ghi_tiep_file 2 true
    ∷ row "kich_ban_chay_vm" op_vm_kich_ban_chay 2 true
    ∷ row "la_tep_vm" op_vm_la_tep 1 true
    ∷ row "la_thu_muc_khong_theo_lien_ket_vm" op_vm_la_thu_muc_khong_theo_lien_ket 1 true
    ∷ row "la_thu_muc_vm" op_vm_la_thu_muc 1 true
    ∷ row "liet_ke_thu_muc_vm" op_vm_liet_ke_thu_muc 1 true
    ∷ row "ngau_nhien_bao_mat_bytes_vm" op_vm_ngau_nhien_bao_mat_bytes 1 true
    ∷ row "ngu_mili_giay_vm" op_vm_ngu_mili_giay 1 true
    ∷ row "so_thuc_bits_vm" op_vm_so_thuc_bits 1 true
    ∷ row "socket_chap_nhan_vm" op_vm_socket_chap_nhan 1 true
    ∷ row "socket_dat_timeout_vm" op_vm_socket_dat_timeout 2 true
    ∷ row "socket_dong_vm" op_vm_socket_dong 1 true
    ∷ row "socket_gui_vm" op_vm_socket_gui 3 true
    ∷ row "socket_nhan_vm" op_vm_socket_nhan 2 true
    ∷ row "socket_phan_giai_vm" op_vm_socket_phan_giai 3 true
    ∷ row "socket_tcp_lang_nghe_vm" op_vm_socket_tcp_lang_nghe 2 true
    ∷ row "socket_tcp_mo_vm" op_vm_socket_tcp_mo 2 true
    ∷ row "socket_tls_nang_cap_vm" op_vm_socket_tls_nang_cap 2 true
    ∷ row "socket_udp_mo_vm" op_vm_socket_udp_mo 2 true
    ∷ row "tao_thu_muc_vm" op_vm_tao_thu_muc 1 true
    ∷ row "ten_nen_tang_vm" op_vm_ten_nen_tang 0 true
    ∷ row "thoi_gian_don_dieu_ms_vm" op_vm_thoi_gian_don_dieu_ms 0 true
    ∷ row "tien_trinh_chay_vm" op_vm_tien_trinh_chay 3 true
    ∷ row "xoa_duong_dan_vm" op_vm_xoa_duong_dan 1 true
    ∷ row "thread_vm_spawn" op_vm_thread_spawn 2 true
    ∷ row "thread_vm_wait" op_vm_thread_wait 2 true
    ∷ row "thread_vm_cancel" op_vm_thread_cancel 1 true
    ∷ row "thread_vm_status" op_vm_thread_status 1 true
    ∷ row "thread_vm_park" op_vm_thread_park 1 true
    ∷ row "bộ" op_vm_tuple_from_list 1 true
    ∷ row "loai_cua" op_vm_type_of 1 false
    ∷ row "bam_dinh_danh" op_vm_identity_hash 1 false
    ∷ row "do_dai" op_vm_length 1 false
    ∷ row "them" op_vm_list_append 2 false
    ∷ row "xoa_tai" op_vm_list_remove 2 false
    ∷ row "co_khoa" op_vm_map_has 2 false
    ∷ row "xoa_khoa" op_vm_map_remove 2 false
    ∷ row "khoa_map" op_vm_map_keys 1 false
    ∷ row "chuoi_bytes_vm" op_vm_string_bytes 1 true
    ∷ row "chuoi_tu_bytes_vm" op_vm_string_from_bytes 1 true
    ∷ row "so_thuc_tu_bits_vm" op_vm_float_from_bits 1 true
    ∷ row "máy_tệp_mở" op_vm_machine_file_open 2 true
    ∷ row "máy_tệp_đọc" op_vm_machine_file_read 3 true
    ∷ row "máy_tệp_ghi" op_vm_machine_file_write 3 true
    ∷ row "máy_tệp_đóng" op_vm_machine_file_close 1 true
    ∷ row "máy_tệp_dịch" op_vm_machine_file_seek 3 true
    ∷ row "máy_tệp_vị_trí" op_vm_machine_file_tell 1 true
    ∷ row "máy_tệp_lỗi" op_vm_machine_file_error 1 true
    ∷ row "máy_tệp_xóa" op_vm_machine_file_remove 1 true
    ∷ row "máy_tiến_trình_pid" op_vm_machine_process_pid 0 true
    ∷ row "máy_tiến_trình_ppid" op_vm_machine_process_ppid 0 true
    ∷ row "máy_tiến_trình_uid" op_vm_machine_process_uid 0 true
    ∷ row "máy_tiến_trình_euid" op_vm_machine_process_euid 0 true
    ∷ row "máy_tiến_trình_gid" op_vm_machine_process_gid 0 true
    ∷ row "máy_tiến_trình_egid" op_vm_machine_process_egid 0 true
    ∷ row "máy_ngủ_mili_giây" op_vm_machine_time_sleep 1 true
    ∷ row "máy_đồng_hồ_đơn_điệu" op_vm_machine_time_monotonic 0 true
    ∷ row "máy_đồng_hồ_utc" op_vm_machine_time_realtime 0 true
    ∷ row "máy_entropy_bytes" op_vm_machine_entropy_read 1 true
    ∷ row "máy_môi_trường_đọc" op_vm_machine_env_get 1 true
    ∷ row "máy_đồng_hồ_địa_phương" op_vm_machine_time_local 1 true
    ∷ row "máy_thư_mục_tạo" op_vm_machine_dir_mkdir 1 true
    ∷ row "máy_thư_mục_xóa" op_vm_machine_dir_remove 1 true
    ∷ row "máy_thư_mục_mở" op_vm_machine_dir_open 1 true
    ∷ row "máy_thư_mục_kế" op_vm_machine_dir_next 1 true
    ∷ row "máy_thư_mục_đóng" op_vm_machine_dir_close 1 true
    ∷ row "máy_đường_loại" op_vm_machine_path_kind 2 true
    ∷ row "máy_socket_loại" op_vm_machine_socket_kind 1 true
    ∷ row "máy_socket_đóng" op_vm_machine_socket_close 1 true
    ∷ row "máy_socket_timeout" op_vm_machine_socket_timeout 2 true
    ∷ row "máy_socket_gửi" op_vm_machine_socket_send 4 true
    ∷ row "máy_socket_nhận" op_vm_machine_socket_recv 4 true
    ∷ row "máy_socket_chấp_nhận" op_vm_machine_socket_accept 1 true
    ∷ row "máy_socket_lắng_nghe" op_vm_machine_socket_listen 2 true
    ∷ row "máy_socket_kết_nối" op_vm_machine_socket_connect 4 true
    ∷ row "máy_tiến_trình_tạo" op_vm_machine_process_new 1 true
    ∷ row "máy_tiến_trình_đối_số" op_vm_machine_process_arg 2 true
    ∷ row "máy_tiến_trình_lệnh_windows" op_vm_machine_process_command_line 2 true
    ∷ row "máy_tiến_trình_môi_trường" op_vm_machine_process_env 3 true
    ∷ row "máy_tiến_trình_bắt_đầu" op_vm_machine_process_start 1 true
    ∷ row "máy_tiến_trình_thăm_dò" op_vm_machine_process_poll 2 true
    ∷ row "máy_tiến_trình_đọc" op_vm_machine_process_read 4 true
    ∷ row "máy_tiến_trình_đợi" op_vm_machine_process_wait 1 true
    ∷ row "máy_tiến_trình_lỗi" op_vm_machine_process_error 1 true
    ∷ row "máy_tiến_trình_đóng" op_vm_machine_process_close 1 true
    ∷ row "máy_resolver_mở" op_vm_machine_resolve_open 3 true
    ∷ row "máy_resolver_tiếp" op_vm_machine_resolve_next 1 true
    ∷ row "máy_resolver_đóng" op_vm_machine_resolve_close 1 true
    ∷ row "máy_tls_nâng_cấp" op_vm_machine_tls_upgrade 2 true
    ∷ row "máy_tls_gửi" op_vm_machine_tls_send 3 true
    ∷ row "máy_tls_nhận" op_vm_machine_tls_recv 3 true
    ∷ []
